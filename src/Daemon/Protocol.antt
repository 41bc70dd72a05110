-- ===== src/Daemon/Protocol.antt =====
-- src/daemon/daemon_protocol.h, and `MessageVerified` and `PrepareMessage` of
-- src/daemon/runtime.cpp. A buffer is the list of its bytes; `none` is a write beyond its end, or a
-- read beyond the end of the payload.
use guthi_core.Base.{
  ℕ, ◌+◌, ◌/◌, ◌%◌, ◌^◌, Bool, false, Option, none, some, [], ◌∷◌, ◌++◌, leb, ltb, if◌then◌else◌,
  length, take, drop, ◌||◌, Bytes, equal,
}

pub data EMessage : Type 0 where
  get_file check_if_in_cache request_file_metadata no_such_resource_exists : EMessage
  tracked_file_changed track_this_file echo_message continuation invalid_request : EMessage
  get_cached_file reset_connection : EMessage

-- The enumerators' values, as the byte that stands in a message.
abbrev pub code : EMessage → ℕ
code get_file = 0
code check_if_in_cache = 1
code request_file_metadata = 2
code no_such_resource_exists = 3
code tracked_file_changed = 4
code track_this_file = 5
code echo_message = 6
code continuation = 7
code invalid_request = 8
code get_cached_file = 9
code reset_connection = 10

abbrev pub magic_bytes : Bytes
magic_bytes = 0x48 ∷ 0x55 ∷ 0x54 ∷ 0x49 ∷ 0x4A ∷ []

abbrev pub magic_constant : ℕ
magic_constant = 5

unfoldable pub message_verified : Bytes → ℕ → Bool
message_verified msg length = if leb length 5 then false else equal (take 5 msg) magic_bytes

-- What `PrepareMessage` puts at the start of the buffer.
abbrev pub frame : EMessage → Bytes → ℕ → Bytes
frame type payload length =
    magic_bytes ++ code type ∷ (length % 256) ∷ (length / 256) ∷ take length payload

-- The length is a uint16_t, and so is the result.
unfoldable pub prepare_message : Bytes → EMessage → Bytes → ℕ → Option (ℕ × Bytes)
prepare_message buf type payload len =
    if ltb (length buf) (len + 8) || ltb (length payload) len
    then none
    else some ((len + 8) % 2 ^ 16, frame type payload len ++ drop (len + 8) buf)
