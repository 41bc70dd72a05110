-- ===== src/Files/Reader.antt =====
-- `FileBufReader` of src/filesystem/fs.hpp, but for `Scanf`. `read_ptr` has 8 bits, the other numbers
-- have 32.
use guthi_core.Base.{
  ℕ, ◌+◌, ◌-◌, ◌%◌, ◌^◌, Option, none, some, ltb, leb, ◌==◌, if◌then◌else◌, length, take, drop,
  Bytes,
}
use guthi_core.Files.{Buffer, default_buffer_size, copy_at, Blocks}
use guthi_core.Tracker.State.{Ended, ok, aborted, fault, ◌>>=◌}

pub record FileBufReader (F : Type 0) : Type 0 where
  pub underlying_file : F
  pub buffer : Buffer

-- `pos - read_ptr`
abbrev pub unread_bytes : Buffer → ℕ
unread_bytes b = (2 ^ 32 + b.pos - b.read_ptr) % 2 ^ 32

module _ {F : Type 0} (blocks : Blocks F) where
  -- A block of at most `size` bytes goes to a place in the array.
  unfoldable pub fetch_to : F → ℕ → ℕ → Bytes → Ended (Bytes × (ℕ × F))
  fetch_to f place size data_bytes = blocks.fetch_block_with_size f size >>= λ (bytes, f').
      copy_at place bytes data_bytes >>= λ bs. ok (bs, (length bytes, f'))

  -- The constructor; `fresh` is what `malloc` gives.
  unfoldable pub reader : F → Bytes → Ended (FileBufReader F)
  unfolding fetch_to
  reader file fresh = fetch_to file 0 default_buffer_size fresh >>= λ (bs, (n, f)). ok (record {
    underlying_file = f;
    buffer = record { data_bytes = bs; pos = n; read_ptr = 0; capacity = default_buffer_size };
  })

  -- The bytes that are left are moved to the front, and more are fetched behind them.
  unfoldable pub refill : FileBufReader F → Ended (FileBufReader F)
  unfolding fetch_to
  refill r =
      let left = unread_bytes r.buffer in
      copy_at 0 (take left (drop r.buffer.read_ptr r.buffer.data_bytes)) r.buffer.data_bytes
      >>= λ moved.
          fetch_to r.underlying_file left ((2 ^ 32 + default_buffer_size - left) % 2 ^ 32) moved
          >>= λ (bs, (n, f)). ok (record {
            underlying_file = f;
            buffer = record r.buffer { data_bytes = bs; pos = (left + n) % 2 ^ 32; read_ptr = 0 };
          })

  -- The end of `Read`, which copies the bytes but returns no value.
  unfoldable pub read_buffered : FileBufReader F → ℕ → Ended (Option Bytes × FileBufReader F)
  read_buffered r size =
      if ltb size (unread_bytes r.buffer)
      then (if leb (r.buffer.read_ptr + size) (length r.buffer.data_bytes)
          then ok (some (take size (drop r.buffer.read_ptr r.buffer.data_bytes)), r)
          else fault)
      else aborted

  -- `Read`: the bytes that are copied, or none where it returns 0.
  unfoldable pub read : FileBufReader F → ℕ → Ended (Option Bytes × FileBufReader F)
  unfolding refill read_buffered
  read r size =
      if ltb size default_buffer_size
      then (if ltb size (unread_bytes r.buffer)
          then read_buffered r size
          else if r.buffer.pos == r.buffer.capacity
          then (refill r >>= λ r'. read_buffered r' size)
          else ok (none, r))
      else aborted

module _ {F : Type 0} where
  unfoldable pub skip : ℕ → FileBufReader F → FileBufReader F
  skip n r =
      if ltb ((r.buffer.read_ptr + n) % 2 ^ 32) r.buffer.pos
      then record r {
        buffer = record r.buffer { read_ptr = ((r.buffer.read_ptr + n) % 2 ^ 32) % 2 ^ 8 };
      }
      else r

  unfoldable pub unread : ℕ → FileBufReader F → FileBufReader F
  unread n r =
      if ltb r.buffer.read_ptr n
      then record r { buffer = record r.buffer { read_ptr = 0 } }
      else record r { buffer = record r.buffer { read_ptr = r.buffer.read_ptr - n } }
