-- ===== src/Daemon/Safety.antt =====
-- The loop of `main` in src/daemon/runtime.cpp stays inside its buffers.
use guthi_core.Base.{
  ℕ, zero, ◌-◌, ◌%◌, ◌^◌, ◌≤◌, ◌<◌, ◌≡◌, ap, ◌∙◌, inl, inr, false, ◌||◌, [], ◌∷◌, arith, ltb, ◌==◌,
  Bool-cases, length, drop, replicate, length-take, length-drop, length-replicate, Bytes,
}
use guthi_core.Daemon.Dispatch.{
  Dispatched, tracks, fault, echo, track, dispatch_type, dispatch_request, dispatch_message,
}
use guthi_core.Daemon.Frames.{prepare_message-frame, echo-sent}
use guthi_core.Daemon.Protocol.{echo_message, message_verified, prepare_message}

-- A dispatched message stays inside the buffers, and a name to track has at most 504 bytes.
abbrev pub Harmless : Dispatched → Type 0
Harmless fault = ⊥
Harmless (tracks name) = length name ≤ 504
Harmless _ = Unit {0}

echo-Harmless : (bs : Bytes) (n : ℕ) → n ≤ length bs → n ≤ 504 → Harmless (echo bs n)
echo-Harmless bs n h k =
    let small : n % 2 ^ 16 ≡ n = omega arith in
    let (buf, done, _, _, _) =
      prepare_message-frame (replicate 512 0) echo_message bs n
        (omega (arith, length-replicate 512 zero)) h (omega arith) in
    rw (echo-sent bs n (ap (prepare_message (replicate 512 0) echo_message bs) small ∙ done)) tt

track-Harmless : (bs : Bytes) (n : ℕ) → n ≤ length bs → n ≤ 504 → Harmless (track bs n)
unfolding track
track-Harmless bs n h k =
    let fits : (ltb 512 n || ltb (length bs) n) ≡ false = ground arith in
    rw fits (omega (arith, length-take n bs))

dispatch_type-Harmless :
    (type : ℕ) (bs : Bytes) (n : ℕ) → n ≤ length bs → n ≤ 504 → Harmless (dispatch_type type bs n)
unfolding dispatch_type
dispatch_type-Harmless type bs n h k = elim (Bool-cases (type == 6)) [
  | inl e ↦ rw e (echo-Harmless bs n h k)
  | inr e ↦ rw e (elim (Bool-cases (type == 5)) [
    | inl f ↦ rw f (track-Harmless bs n h k)
    | inr f ↦ rw f (elim (Bool-cases (type == 0)) [ inl g ↦ rw g tt | inr g ↦ rw g tt ])
  ])
]

dispatch_request-Harmless :
    (bs : Bytes) (n : ℕ) → n ≤ length bs → 0 < n → n ≤ 507 → Harmless (dispatch_request bs n)
unfolding dispatch_request
dispatch_request-Harmless [] n h l k = absurd (omega arith)
dispatch_request-Harmless (type ∷ rest) n h l k = elim (Bool-cases (ltb n 3)) [
  | inl e ↦ rw e tt
  | inr e ↦ rw e (
      dispatch_type-Harmless type (drop 2 rest) (n - 3) (ground (arith, length-drop 2 rest))
        (omega arith))
]

-- Whatever a buffer of at most 512 bytes holds, `DispatchMessage` reads and writes inside its
-- buffers for every number of valid bytes up to the buffer's size, and asks to track only names of
-- at most 504 bytes.
pub dispatch_message-Harmless :
    (msg : Bytes) (valid_length : ℕ)
    → valid_length ≤ length msg
    → length msg ≤ 512
    → Harmless (dispatch_message msg valid_length)
unfolding dispatch_message message_verified
dispatch_message-Harmless msg n h k = elim (Bool-cases (message_verified msg n)) [
  | inr e ↦ rw e tt
  | inl e ↦ rw e (
      dispatch_request-Harmless (drop 5 msg) (n - 5) (omega (arith, length-drop 5 msg))
        (ground arith) (omega arith))
]
