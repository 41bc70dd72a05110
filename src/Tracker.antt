-- ===== src/Tracker.antt =====
-- src/filesystem/file_track.hpp and src/filesystem/file_track_linux.cpp: the files whose changes are
-- reported.
pub mod Maps
pub mod State
pub mod Listen
pub mod Decode
pub mod Reports
pub mod Tracked
pub mod Again
mod Examples
