-- ===== src/WinTracker/Listen.antt =====
-- `ListenForChanges` of src/filesystem/file_track.cpp, a part at a time: files and folders may be
-- tracked between two parts by another thread. The arrays with an element for each directory are the
-- one of `completed`, whose length is that of all.
use guthi_core.Base.{
  ℕ, zero, suc, Bool, true, false, none, some, List, [], ◌∷◌, leb, if◌then◌else◌, length, replicate,
}
use guthi_core.Tracker.Maps.{UnorderedMap}
use guthi_core.Tracker.State.{Ended, ok, exited, fault, ◌>>=◌, DirectoryTrackInfo}
use guthi_core.WinTracker.Entries.{consume}
use guthi_core.WinTracker.State.{Windows, WinTracker}

-- `completed[j] = true`
abbrev pub set_true : ℕ → List Bool → List Bool
set_true j [] = []
set_true zero (b ∷ bs) = true ∷ bs
set_true (suc j) (b ∷ bs) = b ∷ set_true j bs

-- Where the thread stands: at the head of the outer loop, behind the new arrays and before the reset
-- of the flag, at the loop that queues the reads, at the head of the inner loop, or at its end.
pub data Phase : Type 0 where
  rearming resetting queueing polling finished : Phase

pub record Listening (W : Type 0) : Type 0 where
  pub tracker : WinTracker W
  pub completed : List Bool
  pub phase : Phase

module _ (windows : Windows) where
  -- The head of the outer loop: if a reset is due, new arrays for as many directories as the count that
  -- is taken with the lock.
  unfoldable pub rearm : Listening windows.World → Listening windows.World
  rearm s =
      if s.tracker.reset_tracking
      then record s {
        completed = replicate (length s.tracker.tracked_directory) true;
        phase = resetting;
      }
      else record s { phase = queueing }

  -- `reset_tracking = false`, without the lock.
  unfoldable pub clear_reset : Listening windows.World → Listening windows.World
  clear_reset s = record s {
    tracker = record s.tracker { reset_tracking = false };
    phase = queueing;
  }

  -- The loop that queues reads, from the index `c` on.
  unfoldable pub queue_reads :
      UnorderedMap ℕ DirectoryTrackInfo → List Bool → ℕ → windows.World → Ended windows.World
  queue_reads [] cs c w = ok w
  queue_reads ((h, _) ∷ ds) [] c w = fault
  queue_reads ((h, _) ∷ ds) (b ∷ bs) c w =
      let rest = queue_reads ds bs (suc c) w in
      if b
      then elim (windows.start_read w h c) [
        | none ↦ exited
        | some w' ↦ queue_reads ds bs (suc c) w'
      ]
      else rest

  -- The loop over the directories in the inner loop, from the index `j` on; the last part of the result
  -- is `relisten`.
  unfoldable pub poll :
      ℕ
      → UnorderedMap ℕ DirectoryTrackInfo
      → ℕ
      → List Bool
      → Bool
      → WinTracker windows.World
      → Ended (WinTracker windows.World × List Bool × Bool)
  unfolding consume
  poll k [] j completed relisten t = ok (t, completed, relisten)
  poll k ((h, info) ∷ ds) j completed relisten t =
      let rest = poll k ds (suc j) completed relisten t in
      if leb (length completed) j then fault else elim (windows.finished_read t.world h j) [
        | none ↦ rest
        | some (buffer, w) ↦ consume windows k 0 buffer h info (record t { world = w }) >>= λ t'.
            poll k ds (suc j) (set_true j completed) true t'
      ]

  -- A part of the thread's work.
  unfoldable pub listen_part : ℕ → Listening windows.World → Ended (Listening windows.World)
  unfolding rearm clear_reset queue_reads poll
  listen_part k s = elim s.phase [
    | finished ↦ ok s
    | rearming ↦
        if s.tracker.stop_listening then ok (record s { phase = finished }) else ok (rearm s)
    | resetting ↦ ok (clear_reset s)
    | queueing ↦ queue_reads s.tracker.tracked_directory s.completed 0 s.tracker.world >>= λ w.
        ok (record s { tracker = record s.tracker { world = w }; phase = polling })
    | polling ↦
        if s.tracker.stop_listening
        then ok (record s { phase = rearming })
        else if s.tracker.reset_tracking
        then ok (record s { phase = rearming })
        else (poll k s.tracker.tracked_directory 0 s.completed false s.tracker >>= λ r.
            ok (record {
              tracker = r.0;
              completed = r.1;
              phase = if r.2 then rearming else polling;
            }))
  ]

  -- The start of the thread: `reset_tracking` is set.
  abbrev pub listen : WinTracker windows.World → Listening windows.World
  listen t = record {
    tracker = record t { reset_tracking = true };
    completed = [];
    phase = rearming;
  }
