-- ===== src/Daemon/Dispatch.antt =====
-- `DispatchMessage` of src/daemon/runtime.cpp: what a message of the client makes the daemon do.
use guthi_core.Base.{
  ℕ, ◌+◌, ◌-◌, ◌*◌, ◌%◌, ◌^◌, not, none, some, [], ◌∷◌, ltb, ◌==◌, ◌||◌, if◌then◌else◌, length,
  take, drop, replicate, Bytes,
}
use guthi_core.Daemon.Protocol.{
  code, get_file, track_this_file, echo_message, magic_constant, message_verified, prepare_message,
}

pub data Dispatched : Type 0 where
  -- the message is dropped, with a line in the log
  ignored : Dispatched
  -- bytes are written to the client
  sent : Bytes → Dispatched
  -- the file of this name is to be tracked
  tracks : Bytes → Dispatched
  -- `exit(-2)`
  exits : Dispatched
  -- a read or write outside a buffer
  fault : Dispatched

-- `msg_length` as the code computes it: `<<` binds less than `+`. Nothing reads the result.
abbrev pub msg_length : ℕ → ℕ → ℕ
msg_length low high = ((low + high) * 2 ^ 8) % 2 ^ 16

-- `case EchoMessage`: the payload is prepared in a buffer of 512 bytes and sent.
unfoldable pub echo : Bytes → ℕ → Dispatched
echo start to_read =
    elim (prepare_message (replicate 512 0) echo_message start (to_read % 2 ^ 16)) [
      | none ↦ fault
      | some (n, buf) ↦ sent (take n buf)
    ]

-- `case TrackThisFile`: the name is copied through a buffer of 512 bytes.
unfoldable pub track : Bytes → ℕ → Dispatched
track start to_read =
    if ltb 512 to_read || ltb (length start) to_read then fault else tracks (take to_read start)

-- The switch over the type.
unfoldable pub dispatch_type : ℕ → Bytes → ℕ → Dispatched
unfolding track
dispatch_type type start to_read =
    if type == code echo_message
    then echo start to_read
    else if type == code track_this_file
    then track start to_read
    else if type == code get_file
    then ignored
    else exits

-- The bytes behind the magic ones: type, two bytes of length, payload.
unfoldable pub dispatch_request : Bytes → ℕ → Dispatched
dispatch_request [] valid_length = fault
dispatch_request (type ∷ rest) valid_length =
    if ltb valid_length 3 then ignored else dispatch_type type (drop 2 rest) (valid_length - 3)

unfoldable pub dispatch_message : Bytes → ℕ → Dispatched
unfolding dispatch_request dispatch_type
dispatch_message msg valid_length =
    if not (message_verified msg valid_length)
    then ignored
    else dispatch_request (drop magic_constant msg) (valid_length - magic_constant)
