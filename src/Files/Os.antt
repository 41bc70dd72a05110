-- ===== src/Files/Os.antt =====
-- `OSFile` of src/filesystem/fs.hpp and src/filesystem/fs.cpp. The time of the last write, which only
-- `QueryLastWriteTime` asks the system for, is left out.
use guthi_core.Base.{
  ℕ, ◌%◌, ◌^◌, Option, none, some, List, [], ◌∷◌, get_elem?, Bytes, codes, c_string,
}
use guthi_core.Files.{Blocks}
use guthi_core.Tracker.State.{Ended, ok, fault}

pub data FileMode : Type 0 where
  file_in file_out in_out append none_mode : FileMode

pub data FileStatus : Type 0 where
  opened modified out_of_sync closed : FileStatus

-- `static_cast<size_t>(mode)`
abbrev pub mode_number : FileMode → ℕ
mode_number file_in = 0
mode_number file_out = 1
mode_number in_out = 2
mode_number append = 3
mode_number none_mode = 4

-- The streams of the C library. `fopen` has the name and the mode; `size` is what `ftell` gives at the
-- end of a stream; `fread` has the number of bytes, and gives those that are there.
pub record Stdio : Type 1 where
  pub World : Type 0
  pub fopen : Bytes → Bytes → World → Option (ℕ × World)
  pub size : ℕ → World → ℕ
  pub fread : ℕ → ℕ → World → Bytes × World
  pub fwrite : ℕ → Bytes → World → ℕ × World
  pub fclose : ℕ → World → World

-- `file_ptr` is none while it is null.
pub record OsFile : Type 0 where
  pub file_ptr : Option ℕ
  pub file_size : ℕ
  pub file_name : Bytes
  pub file_mode : FileMode
  pub file_status : FileStatus

abbrev pub file_modes : List Bytes
file_modes = codes "r" ∷ codes "w" ∷ codes "r+" ∷ codes "a+" ∷ []

module _ (c : Stdio) where
  abbrev pub unopened : Bytes → FileMode → OsFile
  unopened file mode = record {
    file_ptr = none;
    file_size = 0;
    file_name = file;
    file_mode = mode;
    file_status = opened;
  }

  -- From `fopen` on.
  unfoldable pub open_with : Bytes → FileMode → Bytes → c.World → OsFile × c.World
  open_with file mode how w = elim (c.fopen (c_string file) how w) [
    | none ↦ (unopened file mode, w)
    | some (f, w') ↦
        (record (unopened file mode) { file_ptr = some f; file_size = c.size f w' }, w')
  ]

  unfoldable pub open_file : Bytes → FileMode → c.World → Ended (OsFile × c.World)
  unfolding open_with
  open_file file mode w = elim (get_elem? file_modes (mode_number mode)) [
    | none ↦ fault
    | some how ↦ ok (open_with file mode how w)
  ]

  unfoldable pub close_file : OsFile → c.World → Ended (OsFile × c.World)
  close_file file w = elim file.file_ptr [
    | none ↦ fault
    | some f ↦ ok (record file { file_status = closed }, c.fclose f w)
  ]

  unfoldable pub fetch_block_with_size : OsFile × c.World → ℕ → Ended (Bytes × (OsFile × c.World))
  fetch_block_with_size (file, w) size = elim file.file_ptr [
    | none ↦ fault
    | some f ↦ let (bytes, w') = c.fread f size w in ok (bytes, (file, w'))
  ]

  unfoldable pub write_block_with_size : OsFile × c.World → Bytes → Ended (ℕ × (OsFile × c.World))
  write_block_with_size (file, w) bytes = elim file.file_ptr [
    | none ↦ fault
    | some f ↦ let (n, w') = c.fwrite f bytes w in ok (n % 2 ^ 32, (file, w'))
  ]

  abbrev pub os_blocks : Blocks (OsFile × c.World)
  os_blocks = record {
    fetch_block_with_size = fetch_block_with_size;
    write_block_with_size = write_block_with_size;
  }
