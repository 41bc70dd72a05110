-- ===== src/Daemon/Client.antt =====
-- The client of src/daemon/runtime_client.cpp, and the calls of src/daemon/daemon_lib.cpp that a
-- client makes. The waits between its steps are left out.
use guthi_core.Base.{
  ℕ, zero, suc, ◌-◌, Option, none, some, [], ◌∷◌, ◌++◌, ltb, ◌==◌, if◌then◌else◌, length, take,
  drop, Bytes, codes,
}
use guthi_core.Daemon.Pipe.{Pipe, read_message, write_message, read_non_blocking}
use guthi_core.Daemon.Protocol.{magic_bytes}
use guthi_core.Tracker.State.{Ended, ok, fault}

-- So many bytes of an array are sent.
unfoldable pub post_message_to_daemon : Bytes → ℕ → Pipe → Ended Pipe
post_message_to_daemon msg len p =
    if ltb (length msg) len then fault else ok (write_message (take len msg) p)

-- The bytes read; their number is stored as the length.
abbrev pub get_message_from_daemon : ℕ → Pipe → Bytes × Pipe
get_message_from_daemon max_allowed_read p = read_message max_allowed_read p

abbrev pub read_non_blocking_from_daemon : ℕ → Pipe → Option Bytes × Pipe
read_non_blocking_from_daemon max_allowed_read p = read_non_blocking max_allowed_read p

-- The literal, with the 0 at its end.
abbrev pub echo_msg : Bytes
echo_msg = magic_bytes ++ 6 ∷ 5 ∷ 0 ∷ (codes "HelloWorld" ++ 0 ∷ [])

-- `%s` of the bytes from an address to the end of the array; none is a read beyond.
unfoldable pub string_at : Bytes → Option Bytes
string_at [] = none
string_at (b ∷ bs) =
    if b == 0 then some [] else elim (string_at bs) [ none ↦ none | some t ↦ some (b ∷ t) ]

-- `%.*s` of at most so many bytes.
unfoldable pub text_up_to : ℕ → Bytes → Option Bytes
text_up_to zero bs = some []
text_up_to (suc n) [] = none
text_up_to (suc n) (b ∷ bs) =
    if b == 0 then some [] else elim (text_up_to n bs) [ none ↦ none | some t ↦ some (b ∷ t) ]

pub data Printed : Type 0 where
  non_blocking : Printed
  message_received : Bytes → Printed
  beyond : Printed

abbrev printed : Option Bytes → Printed
printed none = beyond
printed (some t) = message_received t

pub record ClientState : Type 0 where
  pub read_buffer : Bytes
  pub pipe : Pipe

-- What is printed when `n` bytes have been read; a precision below 0 is as none.
unfoldable pub print_received : ℕ → Bytes → Printed
unfolding string_at text_up_to
print_received n buffer =
    if ltb n 8
    then printed (string_at (drop 8 buffer))
    else printed (text_up_to (n - 8) (drop 8 buffer))

-- What is printed of the bytes that were read; -1 is not 0, and a precision below 0 too.
unfoldable pub client_received : Bytes → Option Bytes × Pipe → Printed × ClientState
unfolding print_received string_at
client_received buffer (none, p) =
    (printed (string_at (drop 8 buffer)), record { read_buffer = buffer; pipe = p })
client_received buffer (some bs, p) =
    let buffer' = bs ++ drop (length bs) buffer in
    let shown = print_received (length bs) buffer' in
    if length bs == 0
    then (non_blocking, record { read_buffer = buffer; pipe = p })
    else (shown, record { read_buffer = buffer'; pipe = p })

-- A round of the loop.
unfoldable pub client_round : ClientState → Printed × ClientState
unfolding client_received
client_round c = client_received c.read_buffer (read_non_blocking_from_daemon 512 c.pipe)

-- What the client sends before its loop.
abbrev pub first_message : Pipe → Ended Pipe
first_message p = post_message_to_daemon echo_msg 512 p
