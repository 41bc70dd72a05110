-- ===== src/Daemon/Reach.antt =====
-- Every state that the loop of `main` in src/daemon/runtime.cpp comes to, whatever the client sends
-- and whatever the tracking thread listens to.
use guthi_core.Base.{
  ℕ, ◌≤◌, ◌≡◌, ◌↔◌, refl, subst, inl, inr, true, false, Option, none, some, List, [], ◌++◌, arith,
  ltb, ◌==◌, Bool-cases, length, drop, length-append, length-take, length-drop, length-replicate,
  Bytes, zero,
}
use guthi_core.Daemon.Dispatch.{dispatch_message}
use guthi_core.Daemon.Loop.{
  DaemonState, running, faulty, after_tracking, apply, received, turn, Meanwhile, meet, start,
}
use guthi_core.Daemon.Pipe.{Pipe, read_message, read_non_blocking}
use guthi_core.Daemon.Safety.{dispatch_message-Harmless}
use guthi_core.Tracker.Listen.{listen_round}
use guthi_core.Tracker.State
use guthi_core.Tracker.State.{
  Inotify, Ended, ChangeInfo, FileTracker, file_tracker, TrackFor, write_change, watch, full_path,
  filter_mask, find_last_of, track_path, track_file, pop_front, try_pop_change_info,
}
use guthi_core.Tracker.Tracked.{Tracked}
use guthi_core.Daemon.Kept.{IsSafe, Kept, cleared-Kept, Overlong, apply-Kept}

-- What the tracking thread brings a tracker to, by reads that it handles whole.
pub data Listens (i : Inotify) : FileTracker i.Watches → FileTracker i.Watches → Type 0 where
  waits : (t : FileTracker i.Watches) → Listens i t t
  handles :
      {t t' t'' : FileTracker i.Watches}
      → Listens i t t'
      → (k : ℕ) (r : Option Bytes) (buffer buffer' : Bytes)
      → listen_round i k r (buffer, t') ≡ State.ok (buffer', t'')
      → Listens i t t''

-- The states of the daemon: it starts with nothing tracked, and between two turns bytes arrive and
-- the tracking thread listens.
pub data Reached (i : Inotify) (p : Pipe) : DaemonState i.Watches → Type 0 where
  started : (w : i.Watches) → Reached i p (start p w)
  turned :
      {s s' : DaemonState i.Watches}
      → Reached i p s
      → (e : Meanwhile i.Watches) → Listens i s.tracker e.listened
      → turn i (meet e s) ≡ running s'
      → Reached i p s'

Listens-Tracked :
    {i : Inotify} {names : List Bytes} {t t' : FileTracker i.Watches}
    → Tracked i names t
    → Listens i t t'
    → Tracked i names t'
Listens-Tracked before (waits t) = before
Listens-Tracked before (handles l k r buffer buffer' done) =
    Tracked.listens (Listens-Tracked before l) k r buffer buffer' done

abbrev Bounded : ℕ → Option Bytes × Pipe → Type 0
Bounded max (none, p) = Unit {0}
Bounded max (some bs, p) = length bs ≤ max

read_message-Bounded : (max : ℕ) (p : Pipe) → length (read_message max p).0 ≤ max
unfolding read_message
read_message-Bounded max p = ground (arith, length-take max p.incoming)

read_non_blocking-Bounded : (max : ℕ) (p : Pipe) → Bounded max (read_non_blocking max p)
unfolding read_non_blocking
read_non_blocking-Bounded max p = elim (Bool-cases p.can_ask) [
  | inr e ↦ simp e tt
  | inl e ↦ simp e (elim (Bool-cases (length p.incoming == 0)) [
    | inl f ↦ rw f (omega arith)
    | inr f ↦ rw f (read_message-Bounded max p)
  ])
]

module _ (i : Inotify) where
  -- What has been read is such a request.
  abbrev pub AsksOverlong : DaemonState i.Watches → Option Bytes × Pipe → Type 0
  AsksOverlong s r =
      (bs : Bytes) × (p : Pipe) × (r ≡ (some bs, p))
      × ((length bs == 0) ≡ false)
      × Overlong i s (dispatch_message (bs ++ drop (length bs) s.msg) (length bs))

  received-Kept :
      (s : DaemonState i.Watches) (r : Option Bytes × Pipe)
      → IsSafe i s
      → Bounded 512 r
      → Kept i (AsksOverlong s r) (received i s r)
  unfolding received
  received-Kept s (none, p) safe h = tt
  received-Kept s (some bs, p) (m, names, t, small) h =
      let size = length-append bs (drop (length bs) s.msg) in
      let left = length-drop (length bs) s.msg in
      let s' = record s { msg = bs ++ drop (length bs) s.msg; pipe = p } in
      elim (Bool-cases (length bs == 0)) [
        | inl e ↦ rw e (cleared-Kept i (AsksOverlong s (some bs, p)) names s' t small)
        | inr e ↦ rw e (
            apply-Kept i (AsksOverlong s (some bs, p)) names s' _ t small
              (dispatch_message-Harmless s'.msg (length bs) (omega arith) (omega arith))
              (λ long. (bs, p, refl, e, long)))
      ]

  -- The next thing that the client asks for, in what waits in the pipe, is to track a name whose path
  -- is too long for the buffer of `TrackFile`.
  abbrev pub NextOverlong : DaemonState i.Watches → Type 0
  NextOverlong s = AsksOverlong s (read_non_blocking 512 s.pipe)

  turn-Kept : (s : DaemonState i.Watches) → IsSafe i s → Kept i (NextOverlong s) (turn i s)
  unfolding turn
  turn-Kept s safe =
      received-Kept s (read_non_blocking 512 s.pipe) safe (read_non_blocking-Bounded 512 s.pipe)

  meet-IsSafe :
      (e : Meanwhile i.Watches) (s : DaemonState i.Watches)
      → Listens i s.tracker e.listened
      → IsSafe i s
      → IsSafe i (meet e s)
  meet-IsSafe e s l (m, names, t, small) = (m, names, Listens-Tracked t l, small)

  Reached-IsSafe : {p : Pipe} {s : DaemonState i.Watches} → Reached i p s → IsSafe i s
  Reached-IsSafe (started w) = (length-replicate 512 zero, [], Tracked.started w, tt)
  Reached-IsSafe (turned {s} {s'} before e l done) =
      subst (Kept i (NextOverlong (meet e s))) done
        (turn-Kept (meet e s) (meet-IsSafe e s l (Reached-IsSafe before)))

  turn-overlong : (s : DaemonState i.Watches) → NextOverlong s → turn i s ≡ faulty
  unfolding turn received apply track_file after_tracking
  turn-overlong s (bs, p, reads, e, (name, asks, long)) =
      let too_long : ltb 127 (length (full_path i s.tracker name)) ≡ true = ground arith in
      rw (turn, reads, received, e, asks, too_long) refl

  -- In every state that the daemon comes to, whatever bytes arrive next and whatever the tracking
  -- thread has listened to, its next turn reads or writes outside its buffers exactly if what it reads
  -- is a request to track a name whose absolute path has 128 bytes or more: `TrackFile` then has
  -- `realpath` write beyond its buffer. The messages that the daemon prepares always fit.
  pub turn-faulty :
      {p : Pipe} {s : DaemonState i.Watches}
      → Reached i p s
      → (e : Meanwhile i.Watches) → Listens i s.tracker e.listened
      → (turn i (meet e s) ≡ faulty) ↔ NextOverlong (meet e s)
  turn-faulty {p} {s} reached e l = (
    λ bad.
        subst (Kept i (NextOverlong (meet e s))) bad
          (turn-Kept (meet e s) (meet-IsSafe e s l (Reached-IsSafe reached))),
    turn-overlong (meet e s),
  )
