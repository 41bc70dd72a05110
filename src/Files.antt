-- ===== src/Files.antt =====
-- src/filesystem/fs.hpp and src/filesystem/fs.cpp, but for the cache: files behind the system, and the
-- buffers in front of them. What a call does without a result is told by `Ended`.
pub mod Os
pub mod Writer
pub mod Reader
pub mod Copy
pub mod Flushed
pub mod Stream
pub mod Reads
pub mod Moves
pub mod Scanf
pub mod Formats
pub mod Behind
mod Examples
use guthi_core.Base.{ℕ, ◌+◌, Bytes, ◌++◌, take, drop, length, leb, if◌then◌else◌}
use guthi_core.Tracker.State.{Ended, ok, fault}

abbrev pub default_buffer_size : ℕ
default_buffer_size = 4096

-- `data` is what `malloc` has given, with the `capacity` bytes that it holds.
pub record Buffer : Type 0 where
  pub data_bytes : Bytes
  pub pos : ℕ
  pub read_ptr : ℕ
  pub capacity : ℕ

-- `memcpy` of bytes to a place in the array.
unfoldable pub copy_at : ℕ → Bytes → Bytes → Ended Bytes
copy_at place bytes data_bytes =
    if leb (place + length bytes) (length data_bytes)
    then ok (take place data_bytes ++ (bytes ++ drop (place + length bytes) data_bytes))
    else fault

-- What the templates ask of a file. The bytes that are fetched come with the number of them.
pub record Blocks (F : Type 0) : Type 0 where
  pub fetch_block_with_size : F → ℕ → Ended (Bytes × F)
  pub write_block_with_size : F → Bytes → Ended (ℕ × F)
