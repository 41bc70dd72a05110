-- ===== src/Shared.antt =====
-- src/shared_memory/shm.h, src/shared_memory/shm.cpp and src/core/read_sharedmemory.hpp: messages in
-- memory that is shared with another process. `none` as the result of a call is a read or write beyond
-- an array.
pub mod Attach
pub mod Messages
mod Examples
use guthi_core.Base.{
  ℕ, zero, suc, ◌+◌, ◌%◌, ◌^◌, Bool, true, false, ◌||◌, Option, none, some, List, [], ◌∷◌, ◌++◌,
  ltb, leb, ◌==◌, if◌then◌else◌, length, take, drop, get_elem?, Bytes,
}

abbrev pub size_shared_mem : ℕ
size_shared_mem = 4096

pub record ShmSegment : Type 0 where
  pub count : ℕ
  pub buff : Bytes

-- `memcpy` of `n` bytes to a place of a buffer.
unfoldable pub copy_to : ℕ → ℕ → Bytes → Bytes → Option Bytes
copy_to place n src buff =
    if ltb (length buff) (place + n) || ltb (length src) n
    then none
    else some (take place buff ++ (take n src ++ drop (place + n) buff))

-- `strlen`, which reads up to the first 0.
unfoldable pub strlen : Bytes → Option ℕ
strlen [] = none
strlen (b ∷ bs) =
    if b == 0 then some 0 else elim (strlen bs) [ none ↦ none | some n ↦ some (suc n) ]

-- The count that `write_data` stores. A negative size is as 0.
unfoldable pub data_count : Bytes → ℕ → Option ℕ
unfolding strlen
data_count [] size = if ltb size 1 then none else some (size % 2 ^ 16)
data_count (_ ∷ bs) size =
    if ltb size 1
    then elim (strlen bs) [ none ↦ none | some n ↦ some (n % 2 ^ 16) ]
    else some (size % 2 ^ 16)

-- `buff[0] = c`
abbrev pub set_first : ℕ → Bytes → Bytes
set_first c [] = []
set_first c (_ ∷ bs) = c ∷ bs

-- `SharedMemory::write_data`; the last argument is the position plus 1.
unfoldable pub write_data : Bytes → ℕ → ℕ → ShmSegment → Option ShmSegment
unfolding data_count copy_to
write_data bytes size place m = elim (data_count bytes size) [
  | none ↦ none
  | some n ↦ elim (copy_to place n bytes (set_first 48 m.buff)) [
    | none ↦ none
    | some bs ↦ some (record { count = n; buff = bs })
  ]
]

-- What a round of `read_shm` does: nothing, or bytes that are read as a file system.
pub data ReadRound : Type 0 where
  idle : ReadRound
  deserializes : Bytes → ReadRound
  beyond : ReadRound

-- `message_type` of `parse_shared_memory`.
unfoldable pub message_type : Bytes → ℕ → Option ℕ
message_type buff count = if ltb count 1 then some 0 else get_elem? buff 1

-- The branch of `read_shm` for a message of the type: the bytes from 1 to `count` are collected.
unfoldable pub read_message_of : Option ℕ → Bytes → ℕ → ReadRound
read_message_of none buff count = beyond
read_message_of (some type) buff count =
    if type == 49
    then (if leb (length buff) count then beyond else deserializes (take count (drop 1 buff)))
    else idle

unfoldable pub read_shm_round : ShmSegment → ReadRound
unfolding message_type read_message_of
read_shm_round m = elim (get_elem? m.buff 0) [
  | none ↦ beyond
  | some flag ↦
      if flag == 49 then read_message_of (message_type m.buff m.count) m.buff m.count else idle
]
