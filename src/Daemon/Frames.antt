-- ===== src/Daemon/Frames.antt =====
-- Messages of src/daemon/runtime.cpp there and back: what `PrepareMessage` writes is verified and
-- understood by `DispatchMessage`.
use guthi_core.Base.{
  ℕ, ◌+◌, ◌-◌, ◌*◌, ◌/◌, ◌%◌, ◌^◌, ◌≤◌, ◌<◌, ◌≡◌, ◌↔◌, refl, sym, ap, ◌∙◌, true, false, some, [],
  ◌∷◌, ◌++◌, codes, drop-append, arith, ltb, leb, length, take, drop, replicate, length-append,
  take-append, take-length, zero, length-take, length-drop, length-replicate, Bytes, equal_refl,
}
use guthi_core.Daemon.Dispatch.{
  Dispatched, ignored, sent, tracks, exits, msg_length, echo, track, dispatch_type,
  dispatch_request, dispatch_message,
}
use guthi_core.Daemon.Protocol.{
  EMessage, get_file, track_this_file, echo_message, code, magic_bytes, message_verified, frame,
  prepare_message,
}

pub length-frame :
    (type : EMessage) (payload : Bytes) (n : ℕ)
    → n ≤ length payload
    → length (frame type payload n) ≡ n + 8
length-frame type payload n h = omega (arith, length-take n payload)

-- A payload that is there whole, in a buffer with room for it and 8 bytes more, is framed behind the
-- magic bytes, its type and its length; the buffer keeps its size, and the message is verified.
pub prepare_message-frame :
    (buf : Bytes) (type : EMessage) (payload : Bytes) (n : ℕ)
    → n + 8 ≤ length buf
    → n ≤ length payload
    → n + 8 < 2 ^ 16
    → (buf' : Bytes) × (prepare_message buf type payload n ≡ some (n + 8, buf'))
      × (length buf' ≡ length buf)
      × (take (n + 8) buf' ≡ frame type payload n)
      × (message_verified buf' (n + 8) ≡ true)
unfolding prepare_message message_verified
prepare_message-frame buf type payload n room whole small = (
  frame type payload n ++ drop (n + 8) buf,
  ground arith,
  length-append (frame type payload n) (drop (n + 8) buf)
      ∙ omega (arith, length-frame type payload n whole, length-drop (n + 8) buf),
  take-append (n + 8) (frame type payload n) (drop (n + 8) buf) (length-frame type payload n whole),
  ground (arith, equal_refl magic_bytes),
)

-- A payload that is there whole, in a buffer with room for it and 8 bytes more, is put behind the
-- characters HUTIJ, the number of the type, and two bytes that give its length, the lower one first;
-- the bytes of the buffer behind it stay as they were, and the length of all is returned.
pub prepare_message-bytes :
    (buf : Bytes) (type : EMessage) (payload : Bytes) (n : ℕ)
    → n + 8 ≤ length buf
    → n ≤ length payload
    → n + 8 < 2 ^ 16
    → (buf' : Bytes) × (low high : ℕ) × (prepare_message buf type payload n ≡ some (n + 8, buf'))
      × (take 5 buf' ≡ codes "HUTIJ")
      × (take 3 (drop 5 buf') ≡ code type ∷ low ∷ high ∷ [])
      × (low < 256)
      × (high < 256)
      × (low + 256 * high ≡ n)
      × (take n (drop 8 buf') ≡ take n payload)
      × (drop (n + 8) buf' ≡ drop (n + 8) buf)
unfolding prepare_message
prepare_message-bytes buf type payload n room whole small = (
  frame type payload n ++ drop (n + 8) buf,
  n % 256,
  n / 256,
  ground arith,
  refl,
  refl,
  omega arith,
  omega arith,
  omega arith,
  take-append n (take n payload) (drop (n + 8) buf) (omega (arith, length-take n payload)),
  drop-append (n + 8) (frame type payload n) (drop (n + 8) buf) (length-frame type payload n whole),
)

-- What each type of message makes the daemon do.
abbrev pub reaction : EMessage → Bytes → Dispatched
reaction echo_message payload = sent (frame echo_message payload (length payload))
reaction track_this_file payload = tracks payload
reaction get_file payload = ignored
reaction _ payload = exits

frame-append :
    (type : EMessage) (payload rest : Bytes)
    → frame type (payload ++ rest) (length payload) ≡ frame type payload (length payload)
frame-append type payload rest =
    rw (take-append (length payload) payload rest refl, take-length (length payload) payload refl)

pub echo-sent :
    (start : Bytes) (to_read : ℕ) {n : ℕ} {buf : Bytes}
    → prepare_message (replicate 512 0) echo_message start (to_read % 2 ^ 16) ≡ some (n, buf)
    → echo start to_read ≡ sent (take n buf)
unfolding echo
echo-sent start to_read done = rw (done, echo)

echo-frame :
    (payload rest : Bytes)
    → length payload ≤ 504
    → echo (payload ++ rest) (length payload) ≡ sent (frame echo_message payload (length payload))
echo-frame payload rest h =
    let n = length payload in
    let small : n % 2 ^ 16 ≡ n = omega arith in
    let (buf, done, _, front, _) =
      prepare_message-frame (replicate 512 0) echo_message (payload ++ rest) n
        (omega (arith, length-replicate 512 (zero))) (omega (arith, length-append payload rest))
        (omega arith) in
    echo-sent (payload ++ rest) n
      (ap (prepare_message (replicate 512 0) echo_message (payload ++ rest)) small ∙ done)
    ∙ ap sent (front ∙ frame-append echo_message payload rest)

track-take :
    (payload rest : Bytes)
    → length payload ≤ 504
    → track (payload ++ rest) (length payload) ≡ tracks payload
unfolding track
track-take payload rest h =
    ground (arith, length-append payload rest, take-append (length payload) payload rest refl)

dispatch_type-reaction :
    (type : EMessage) (payload rest : Bytes)
    → length payload ≤ 504
    → dispatch_type (code type) (payload ++ rest) (length payload) ≡ reaction type payload
unfolding dispatch_type
dispatch_type-reaction echo_message payload rest h = echo-frame payload rest h
dispatch_type-reaction track_this_file payload rest h = track-take payload rest h
dispatch_type-reaction get_file payload rest h = refl
dispatch_type-reaction _ payload rest h = refl

-- A message that begins with the magic bytes, a type, any two bytes of length, and a payload of at
-- most 504 bytes, of which as many are valid as the payload ends at: an echo message is answered by
-- the payload in a message with its true length, a tracking request tracks the file that the
-- payload names, a request for a file does nothing, and every other type ends the daemon. The two
-- bytes of length play no part, nor does what stands behind the payload.
pub dispatch_message-reaction :
    (type : EMessage) (low high : ℕ) (payload rest : Bytes)
    → length payload ≤ 504
    → dispatch_message
        (magic_bytes ++ code type ∷ low ∷ high ∷ (payload ++ rest))
        (length payload + 8)
      ≡ reaction type payload
unfolding dispatch_message message_verified dispatch_request
dispatch_message-reaction type low high payload rest h =
    let n : length payload + 8 - 5 - 3 ≡ length payload = omega arith in
    let behind : ltb (length payload + 8 - 5) 3 ≡ false = ground arith in
    let enough : leb (length payload + 8) 5 ≡ false = ground arith in
    rw (enough, equal_refl magic_bytes, behind, n) (dispatch_type-reaction type payload rest h)

-- The daemon's echo of an echo message that `PrepareMessage` has made is that message, byte for byte.
pub dispatch_message-prepare_message :
    (payload buf : Bytes)
    → length payload ≤ 504
    → length buf ≡ 512
    → (buf' : Bytes) × (prepare_message buf echo_message payload (length payload)
        ≡ some (length payload + 8, buf'))
      × (dispatch_message buf' (length payload + 8) ≡ sent (take (length payload + 8) buf'))
unfolding prepare_message
dispatch_message-prepare_message payload buf h size =
    let n = length payload in
    let rest = drop (n + 8) buf in
    let whole : take n payload ≡ payload = take-length n payload refl in
    (
      frame echo_message payload n ++ rest,
      ground arith,
      rw whole (
          dispatch_message-reaction echo_message (n % 256) (n / 256) payload rest h
          ∙ ap sent (
              sym (
                take-append (n + 8) (frame echo_message payload n) rest
                  (length-frame echo_message payload n (omega arith)))
              ∙ rw whole)),
    )

-- The length that `DispatchMessage` computes is that of the two bytes exactly if the low byte is 0.
pub msg_length-eq :
    (low high : ℕ) → low < 256 → high < 256 → (msg_length low high ≡ low + 256 * high) ↔ (low ≡ 0)
msg_length-eq low high h k = (λ e. omega arith, λ e. omega arith)
