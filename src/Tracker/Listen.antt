-- ===== src/Tracker/Listen.antt =====
-- `ListenForChanges` of src/filesystem/file_track_linux.cpp: the events that one read gives, and the
-- loop over the reads. A buffer is the list of its bytes.
use guthi_core.Base.{
  ℕ, zero, suc, ◌+◌, ◌*◌, ◌%◌, ◌^◌, not, Option, none, some, List, [], ◌∷◌, ◌++◌, ltb, leb, ◌==◌,
  if◌then◌else◌, length, drop, replicate, Bytes,
}
use guthi_core.Tracker.State.{
  Inotify, Ended, ok, aborted, fault, out_of_fuel, ◌>>=◌, FileTracker, handle_changed,
}

-- `inotify_event` without its mask and cookie, which nothing reads, and its name, which is printed.
pub record InotifyEvent : Type 0 where
  pub wd : ℕ
  pub len : ℕ

abbrev pub word : ℕ → ℕ → ℕ → ℕ → ℕ
word a b c d = a + 256 * (b + 256 * (c + 256 * d))

-- The event at the start of the bytes; none if they end before its 16 bytes do.
unfoldable pub event_at : Bytes → Option InotifyEvent
event_at (a ∷ b ∷ c ∷ d ∷ _ ∷ _ ∷ _ ∷ _ ∷ _ ∷ _ ∷ _ ∷ _ ∷ e ∷ f ∷ g ∷ h ∷ rest) =
    some (record { wd = word a b c d; len = word e f g h })
event_at _ = none

module _ (i : Inotify) where
  -- The body of the inner loop, an event with a name being only printed.
  unfoldable pub handle_event : FileTracker i.Watches → InotifyEvent → Ended (FileTracker i.Watches)
  handle_event t e = if e.len == 0 then handle_changed i t e.wd else ok t

  -- `pos` is an int: a place before the buffer is outside it.
  abbrev pub next_pos : ℕ → ℕ
  next_pos len = (16 + len) % 2 ^ 32

  -- The inner loop at `pos`. The fuel bounds its rounds.
  unfoldable pub events : ℕ → ℕ → ℕ → Bytes → FileTracker i.Watches → Ended (FileTracker i.Watches)
  unfolding event_at handle_event
  events zero pos bytes_read buffer t = out_of_fuel
  events (suc k) pos bytes_read buffer t =
      if not (ltb pos bytes_read) then ok t else elim (event_at (drop pos buffer)) [
        | none ↦ fault
        | some e ↦ handle_event t e >>= λ t'.
            if leb (2 ^ 31) (next_pos e.len)
            then fault
            else events k (next_pos e.len) bytes_read buffer t'
      ]

  -- A round of the outer loop: what `read` has given is at the start of the buffer; none is -1.
  unfoldable pub listen_round :
      ℕ → Option Bytes → Bytes × FileTracker i.Watches → Ended (Bytes × FileTracker i.Watches)
  unfolding events
  listen_round k none s = ok s
  listen_round k (some bs) (buffer, t) =
      let buffer' = bs ++ drop (length bs) buffer in
      if not (ltb (length bs) 1024)
      then aborted
      else (events k 0 (length bs) buffer' t >>= λ t'. ok (buffer', t'))

  -- The outer loop over what each `read` gives, until listening is stopped.
  unfoldable pub listen_loop :
      ℕ
      → List (Option Bytes)
      → Bytes × FileTracker i.Watches
      → Ended (Bytes × FileTracker i.Watches)
  unfolding listen_round
  listen_loop k [] s = ok s
  listen_loop k (r ∷ rs) s =
      if s.1.stop_listening then ok s else (listen_round k r s >>= λ s'. listen_loop k rs s')

  unfoldable pub listen_for_changes :
      ℕ → List (Option Bytes) → FileTracker i.Watches → Ended (Bytes × FileTracker i.Watches)
  unfolding listen_loop
  listen_for_changes k rs t = listen_loop k rs (replicate 1024 0, t)
