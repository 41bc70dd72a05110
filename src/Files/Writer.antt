-- ===== src/Files/Writer.antt =====
-- `FileBufWriter` of src/filesystem/fs.hpp. What a format prints is an argument of `printf`; `debug` is
-- whether _DEBUG is defined.
use guthi_core.Base.{
  ℕ, ◌+◌, ◌-◌, ◌%◌, ◌^◌, Bool, true, not, ◌&&◌, [], ◌∷◌, ◌++◌, ltb, if◌then◌else◌, length, take,
  Bytes,
}
use guthi_core.Files.{Buffer, default_buffer_size, copy_at, Blocks}
use guthi_core.Tracker.State.{Ended, ok, aborted, fault, ◌>>=◌}

pub record FileBufWriter (F : Type 0) : Type 0 where
  pub underlying_file : F
  pub buffer : Buffer

-- `malloc` gives an array with anything in it.
abbrev pub writer : {F : Type 0} → F → Bytes → FileBufWriter F
writer file fresh = record {
  underlying_file = file;
  buffer = record { data_bytes = fresh; pos = 0; read_ptr = 0; capacity = default_buffer_size };
}

-- The difference of the numbers of 32 bits.
abbrev pub room : Buffer → ℕ
room b = (2 ^ 32 + b.capacity - b.pos) % 2 ^ 32

module _ {F : Type 0} (blocks : Blocks F) where
  unfoldable pub flush : FileBufWriter F → Ended (Bool × FileBufWriter F)
  flush w =
      if ltb (length w.buffer.data_bytes) w.buffer.pos
      then fault
      else (blocks.write_block_with_size w.underlying_file (take w.buffer.pos w.buffer.data_bytes)
          >>= λ (n, f).
              ok (true, record { underlying_file = f; buffer = record w.buffer { pos = 0 } }))

module _ {F : Type 0} where
  -- `vsprintf` ends what it prints with a 0.
  unfoldable pub printf : Bool → Bytes → FileBufWriter F → Ended (FileBufWriter F)
  printf debug text w =
      if debug && not (ltb ((w.buffer.pos + length text) % 2 ^ 32) w.buffer.capacity)
      then aborted
      else (copy_at w.buffer.pos (text ++ 0 ∷ []) w.buffer.data_bytes >>= λ bytes. ok (record w {
        buffer = record w.buffer {
          data_bytes = bytes;
          pos = (w.buffer.pos + length text) % 2 ^ 32;
        };
      }))

  unfoldable pub write : Bytes → FileBufWriter F → Ended (FileBufWriter F)
  write bytes w =
      if ltb (length bytes) (room w.buffer)
      then (copy_at w.buffer.pos bytes w.buffer.data_bytes >>= λ bs.
          ok (record w { buffer = record w.buffer { data_bytes = bs } }))
      else aborted
