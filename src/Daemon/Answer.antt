-- ===== src/Daemon/Answer.antt =====
-- A client of src/daemon/runtime_client.cpp and the loop of src/daemon/runtime.cpp together.
use guthi_core.Base.{
  ◌-◌, ◌≤◌, ◌≡◌, refl, ◌∙◌, false, true, some, [], ◌∷◌, ◌++◌, arith, ltb, ◌==◌, length, take, drop,
  take-length, ◌%◌, ◌/◌, replicate, Bytes,
}
use guthi_core.Daemon.Client.{
  text_up_to, message_received, print_received, client_received, client_round,
}
use guthi_core.Daemon.Dispatch.{dispatch_message, sent}
use guthi_core.Daemon.Frames.{length-frame, dispatch_message-reaction}
use guthi_core.Daemon.Loop.{DaemonState, running, turn, received, apply, propagate}
use guthi_core.Daemon.Meeting.{IsCString}
use guthi_core.Daemon.Portable.{take-all}
use guthi_core.Daemon.Pipe.{Pipe, read_message, read_non_blocking, write_message}
use guthi_core.Daemon.Protocol.{frame, echo_message, magic_bytes}
use guthi_core.Tracker.State.{Inotify, try_pop_change_info, pop_front}

text_up_to-append : (s rest : Bytes) → IsCString s → text_up_to (length s) (s ++ rest) ≡ some s
unfolding text_up_to
text_up_to-append [] rest h = refl
text_up_to-append (b ∷ s) rest (first, h) = rw (first, text_up_to-append s rest h) refl

-- An end of a pipe where these bytes wait.
abbrev pub holding : Bytes → Pipe
holding bs = record {
  incoming = bs;
  outgoing = [];
  closed = false;
  can_ask = true;
  can_read = true;
}

-- A message of at most 512 bytes is read whole.
read_non_blocking-whole :
    (bs : Bytes)
    → length bs ≤ 512
    → (length bs == 0) ≡ false
    → read_non_blocking 512 (holding bs) ≡ (some bs, holding (drop 512 bs))
unfolding read_non_blocking read_message
read_non_blocking-whole bs l some_there =
    let whole : take 512 bs ≡ bs = take-all 512 bs l ∙ take-length (length bs) bs refl in
    rw (some_there, whole) refl

abbrev pub echo_frame : Bytes → Bytes
echo_frame payload = frame echo_message payload (length payload)

echo_frame-append :
    (payload rest : Bytes)
    → echo_frame payload ++ rest
      ≡ magic_bytes ++ 6 ∷ (length payload % 256) ∷ (length payload / 256) ∷ (payload ++ rest)
echo_frame-append payload rest = rw (take-length (length payload) payload refl) refl

dispatch_message-echo :
    (payload rest : Bytes)
    → length payload ≤ 504
    → dispatch_message (echo_frame payload ++ rest) (length (echo_frame payload))
      ≡ sent (echo_frame payload)
dispatch_message-echo payload rest l =
    let n = length payload in
    rw (length-frame echo_message payload n (omega arith), echo_frame-append payload rest)
      (dispatch_message-reaction echo_message (n % 256) (n / 256) payload rest l)

-- The daemon, when it reads the message.
daemon-echoes :
    (i : Inotify) (s : DaemonState i.Watches) (payload : Bytes)
    → length payload ≤ 504
    → s.pipe ≡ holding (echo_frame payload)
    → s.tracker.change_info ≡ []
    → (s' : DaemonState i.Watches) × (turn i s ≡ running s')
      × (s'.pipe.outgoing ≡ echo_frame payload)
unfolding turn received apply propagate try_pop_change_info pop_front write_message
daemon-echoes i s payload l sent_there quiet =
    let bs = echo_frame payload in
    let size = length-frame echo_message payload (length payload) (omega arith) in
    let nonempty : (length bs == 0) ≡ false = ground arith in
    let reads = read_non_blocking-whole bs (omega arith) nonempty in
    let answer = dispatch_message-echo payload (drop (length bs) s.msg) l in
    let s' = record s { msg = replicate 512 0; pipe = write_message bs (holding (drop 512 bs)) } in
    (s', rw (sent_there, reads, nonempty, answer, quiet) refl, refl)

-- The client, when it reads the answer.
client_round-prints :
    (buffer payload : Bytes)
    → length payload ≤ 504
    → IsCString payload
    → (client_round (record { read_buffer = buffer; pipe = holding (echo_frame payload) })).0
      ≡ message_received payload
unfolding client_round client_received print_received
client_round-prints buffer payload l h =
    let bs = echo_frame payload in
    let size = length-frame echo_message payload (length payload) (omega arith) in
    let nonempty : (length bs == 0) ≡ false = ground arith in
    let reads = read_non_blocking-whole bs (omega arith) nonempty in
    let rest = drop (length bs) buffer in
    let header : ltb (length bs) 8 ≡ false = ground arith in
    let n : length bs - 8 ≡ length payload = omega arith in
    rw
      (reads, nonempty, header, n, echo_frame-append payload rest, text_up_to-append payload rest h)
      refl

-- For a payload of at most 504 bytes, none of which is 0, that a client sends in an echo message: if
-- nothing else waits, the daemon's turn goes on, and from what it writes a round of the client's loop
-- prints the payload, whatever the buffers of both have held.
pub client_round-turn :
    (i : Inotify) (s : DaemonState i.Watches) (buffer payload : Bytes)
    → length payload ≤ 504
    → IsCString payload
    → s.pipe ≡ holding (echo_frame payload)
    → s.tracker.change_info ≡ []
    → (s' : DaemonState i.Watches) × (turn i s ≡ running s')
      × ((client_round (record { read_buffer = buffer; pipe = holding s'.pipe.outgoing })).0
          ≡ message_received payload)
client_round-turn i s buffer payload l h sent_there quiet =
    let (s', runs, answer) = daemon-echoes i s payload l sent_there quiet in
    (s', runs, rw answer (client_round-prints buffer payload l h))
