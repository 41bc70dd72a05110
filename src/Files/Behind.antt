-- ===== src/Files/Behind.antt =====
-- `OSFile` of src/filesystem/fs.cpp as a file behind the buffers of src/filesystem/fs.hpp.
use guthi_core.Base.{ℕ, ◌%◌, ◌^◌, ◌≡◌, refl, some, ◌++◌, length, take, drop, Bytes, codes, []}
use guthi_core.Files.Flushed.{Appends}
use guthi_core.Files.Os.{
  FileMode, file_in, file_out, in_out, append, none_mode, Stdio, OsFile, fetch_block_with_size,
  write_block_with_size, os_blocks,
}
use guthi_core.Files.Stream.{Streams}
use guthi_core.Tracker.State.{ok}

-- What the C library promises of a stream that is read.
pub record Readable (c : Stdio) (f : ℕ) : Type 0 where
  pub contents : c.World → Bytes
  pub freads :
      (n : ℕ) (w : c.World)
      → (w' : c.World) × (c.fread f n w ≡ (take n (contents w), w'))
        × (contents w' ≡ drop n (contents w))

-- And of a stream that is written to.
pub record Writable (c : Stdio) (f : ℕ) : Type 0 where
  pub written : c.World → Bytes
  pub fwrites :
      (bytes : Bytes) (w : c.World)
      → (w' : c.World) × (c.fwrite f bytes w ≡ (length bytes, w'))
        × (written w' ≡ written w ++ bytes)

module _ (c : Stdio) (f : ℕ) where
  abbrev pub HasStream : OsFile × c.World → Type 0
  HasStream (file, w) = file.file_ptr ≡ some f

  pub fetch-lem :
      (laws : Readable c f) (s : OsFile × c.World) (n : ℕ)
      → HasStream s
      → (s' : OsFile × c.World) × HasStream s'
        × (fetch_block_with_size c s n ≡ ok (take n (laws.contents s.1), s'))
        × (laws.contents s'.1 ≡ drop n (laws.contents s.1))
  unfolding fetch_block_with_size
  fetch-lem laws (file, w) n o =
      let (w', e, rest) = laws.freads n w in ((file, w'), o, simp (o, e) refl, rest)

  abbrev pub os_streams : Readable c f → Streams (os_blocks c)
  os_streams laws = record {
    IsOpen = HasStream;
    contents = λ s. laws.contents s.1;
    fetches = fetch-lem laws;
  }

  pub write-lem :
      (laws : Writable c f) (s : OsFile × c.World) (bytes : Bytes)
      → HasStream s
      → (n : ℕ) × (s' : OsFile × c.World) × HasStream s'
        × (write_block_with_size c s bytes ≡ ok (n, s'))
        × (laws.written s'.1 ≡ laws.written s.1 ++ bytes)
  unfolding write_block_with_size
  write-lem laws (file, w) bytes o =
      let (w', e, grown) = laws.fwrites bytes w in
      (length bytes % 2 ^ 32, (file, w'), o, simp (o, e) refl, grown)

  abbrev pub os_appends : Writable c f → Appends (os_blocks c)
  os_appends laws = record {
    IsOpen = HasStream;
    written = λ s. laws.written s.1;
    writes = write-lem laws;
  }

-- The mode of the C library for each mode of a file.
abbrev pub mode_string : FileMode → Bytes
mode_string file_in = codes "r"
mode_string file_out = codes "w"
mode_string in_out = codes "r+"
mode_string append = codes "a+"
mode_string none_mode = []
