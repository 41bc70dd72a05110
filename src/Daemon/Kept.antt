-- ===== src/Daemon/Kept.antt =====
-- What a turn of the loop of `main` in src/daemon/runtime.cpp keeps, once the message is read, and
-- where it leaves its buffers.
use guthi_core.Base.{
  ◌%◌, ◌^◌, ◌≤◌, ◌<◌, ◌≡◌, refl, sym, ◌∙◌, subst, inl, inr, List, [], ◌∷◌, ◌++◌, arith, ltb,
  Bool-cases, Option-cases, length, All, length-replicate, Bytes, zero, c_string,
}
use guthi_core.Daemon.Dispatch.{Dispatched, ignored, sent, tracks, exits, fault}
use guthi_core.Daemon.Frames.{prepare_message-frame}
use guthi_core.Daemon.Loop.{
  DaemonState, Turn, running, stopped, exited, aborted, faulty, unfinished, propagate,
  propagate_cleared, cleared, after_tracking, apply,
}
use guthi_core.Daemon.Pipe.{write_message}
use guthi_core.Daemon.Protocol.{tracked_file_changed}
use guthi_core.Daemon.Safety.{Harmless}
use guthi_core.Tracker.Reports.{Reported, reported_files}
use guthi_core.Tracker.State
use guthi_core.Tracker.State.{
  Inotify, Ended, ChangeInfo, FileTracker, file_tracker, TrackFor, write_change, watch, full_path,
  filter_mask, find_last_of, track_path, track_file, pop_front, try_pop_change_info,
}
use guthi_core.Tracker.Tracked.{Tracked, Tracked-Reported}

abbrev Small : Bytes → Type 0
Small name = length name ≤ 504

All-append : (P : Bytes → Type 0) (xs ys : List Bytes) → All P xs → All P ys → All P (xs ++ ys)
All-append P [] ys a b = b
All-append P (x ∷ xs) ys (p, a) b = (p, All-append P xs ys a b)

length-c_string : (bs : Bytes) → length (c_string bs) ≤ length bs
length-c_string [] = omega arith
length-c_string (b ∷ bs) = ground (arith, length-c_string bs)

Reported-Small : (ms : List Bytes) (name : Bytes) → All Small ms → Reported ms name → Small name
Reported-Small [] name a e = subst Small (sym e) (omega arith)
Reported-Small (m ∷ ms) name (a, rest) (inl e) =
    subst Small (sym e) (omega (arith, length-c_string m))
Reported-Small (m ∷ ms) name (a, rest) (inr r) = Reported-Small ms name rest r

All-Reported-Small :
    (ms names : List Bytes) → All Small ms → All (Reported ms) names → All Small names
All-Reported-Small ms [] a r = tt
All-Reported-Small ms (n ∷ ns) a (r, rs) = (Reported-Small ms n a r, All-Reported-Small ms ns a rs)

module _ (i : Inotify) where
  -- The buffer has its size, and the tracker knows only names that fit in a message.
  abbrev pub IsSafe : DaemonState i.Watches → Type 0
  IsSafe s =
      (length s.msg ≡ 512) × (names : List Bytes) × Tracked i names s.tracker × All Small names

  -- `Q` holds where the turn is faulty.
  abbrev pub Kept : Type 0 → Turn i.Watches → Type 0
  Kept Q (running s) = IsSafe s
  Kept Q (stopped s) = Unit {0}
  Kept Q exited = Unit {0}
  Kept Q aborted = Unit {0}
  Kept Q faulty = Q
  Kept Q unfinished = Unit {0}

  module _ (Q : Type 0) (names : List Bytes) where
    propagate-Kept :
        (s : DaemonState i.Watches) (cs : List ChangeInfo)
        → length s.msg ≡ 512
        → All Small names
        → All Small (reported_files cs)
        → Tracked i names (pop_front s.tracker cs).1
        → Kept Q (propagate s (pop_front s.tracker cs))
    unfolding propagate pop_front
    propagate-Kept s [] m small r t = (m, names, t, small)
    propagate-Kept s (info ∷ rest) m small (fits_here, r) t =
        let name = c_string info.file in
        let bound = length-c_string info.file in
        let fits : length name % 2 ^ 16 ≡ length name = omega arith in
        let (buf, done, size, _, _) =
          prepare_message-frame s.msg tracked_file_changed name (length name) (omega arith)
            (omega arith) (omega arith) in
        rw (propagate, fits, done) (size ∙ m, names, t, small)

    pub cleared-Kept :
        (s : DaemonState i.Watches)
        → Tracked i names s.tracker
        → All Small names
        → Kept Q (propagate_cleared s)
    unfolding try_pop_change_info
    cleared-Kept s t small =
        propagate-Kept (cleared s) s.tracker.change_info (length-replicate 512 zero) small
          (All-Reported-Small names (reported_files s.tracker.change_info) small
            (Tracked-Reported i t).0)
          (Tracked.pops t)

  -- Where `TrackFile` goes outside its buffer, the path is too long for it.
  abbrev FaultsFor : Bytes → Ended (FileTracker i.Watches) → Type 0
  FaultsFor path State.fault = 127 < length path
  FaultsFor path _ = Unit {0}

  track_path-FaultsFor :
      (t : FileTracker i.Watches) (name : Bytes) (option : TrackFor)
      → FaultsFor (full_path i t name) (track_path i t name option)
  unfolding track_path watch
  track_path-FaultsFor t name option = elim (Bool-cases (ltb 127 (length (full_path i t name)))) [
    | inl long ↦ rw long (ground arith)
    | inr short ↦
        rw short
          (elim (Option-cases (i.add_watch t.watches (full_path i t name) (filter_mask option))) [
            | inl e ↦ rw e tt
            | inr (r, e) ↦ rw e tt
          ])
  ]

  track_file-FaultsFor :
      (t : FileTracker i.Watches) (name : Bytes) (option : TrackFor)
      → FaultsFor (full_path i t name) (track_file i t name option)
  unfolding track_file
  track_file-FaultsFor t name option = elim (Bool-cases (ltb 127 (length (full_path i t name)))) [
    | inl long ↦ rw long (ground arith)
    | inr short ↦ rw short (elim (Option-cases (find_last_of 47 (full_path i t name))) [
      | inl e ↦ rw e tt
      | inr (p, e) ↦ rw e (track_path-FaultsFor t name option)
    ])
  ]

  after_tracking-Kept :
      (Q : Type 0) (names : List Bytes) (s : DaemonState i.Watches) (path : Bytes)
      (m : Ended (FileTracker i.Watches))
      → ((t : FileTracker i.Watches) → m ≡ State.ok t → Tracked i names t)
      → All Small names
      → FaultsFor path m
      → (127 < length path → Q)
      → Kept Q (after_tracking s m)
  unfolding after_tracking
  after_tracking-Kept Q names s path (State.ok t) tracked small f q =
      cleared-Kept Q names (record s { tracker = t }) (tracked t refl) small
  after_tracking-Kept Q names s path State.exited tracked small f q = tt
  after_tracking-Kept Q names s path State.aborted tracked small f q = tt
  after_tracking-Kept Q names s path State.fault tracked small f q = q f
  after_tracking-Kept Q names s path State.out_of_fuel tracked small f q = tt

  -- The client asks to track a name whose path is too long for the buffer of `TrackFile`.
  abbrev pub Overlong : DaemonState i.Watches → Dispatched → Type 0
  Overlong s d = (name : Bytes) × (d ≡ tracks name) × (127 < length (full_path i s.tracker name))

  pub apply-Kept :
      (Q : Type 0) (names : List Bytes) (s : DaemonState i.Watches) (d : Dispatched)
      → Tracked i names s.tracker
      → All Small names
      → Harmless d
      → (Overlong s d → Q)
      → Kept Q (apply i s d)
  unfolding apply
  apply-Kept Q names s ignored t small h q = cleared-Kept Q names s t small
  apply-Kept Q names s (sent bs) t small h q =
      cleared-Kept Q names (record s { pipe = write_message bs s.pipe }) t small
  apply-Kept Q names s (tracks name) t small h q =
      after_tracking-Kept Q (names ++ name ∷ []) s (full_path i s.tracker name)
        (track_file i s.tracker name write_change)
        (λ t' done. Tracked.tracks t name write_change done)
        (All-append Small names (name ∷ []) small (h, tt))
        (track_file-FaultsFor s.tracker name write_change) (λ long. q (name, refl, long))
  apply-Kept Q names s exits t small h q = tt
  apply-Kept Q names s fault t small h q = elim h [ ]
