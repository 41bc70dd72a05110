-- ===== src/Cpuinfo.antt =====
-- src/runtime/parser_cpuinfo.cpp: what the text that Linux gives says of processors and memory.
pub mod Tokens
pub mod Parse
pub mod Memory
pub mod Digits
pub mod Lines
pub mod Available
pub mod Refused
pub mod System
mod Examples
