-- ===== src/WinTracker.antt =====
-- src/filesystem/file_track.cpp: the tracker of files on Windows, over the state of
-- src/filesystem/file_track.hpp.
pub mod State
pub mod Entries
pub mod Listen
pub mod Batches
pub mod Arrays
pub mod Reach
mod Examples
