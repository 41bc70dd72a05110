-- ===== src/WinTracker/Reach.antt =====
-- `ListenForChanges` of src/filesystem/file_track.cpp together with the threads that track files and
-- folders meanwhile, as steps that follow each other.
use guthi_core.Base.{
  ℕ, ◌<◌, ◌≡◌, refl, ap, ◌&&◌, subst, Bool, true, false, List, arith, length, Bytes, replicate,
  length-replicate,
}
use guthi_core.Tracker.Decode.{Gives}
use guthi_core.Tracker.Reports.{Always}
use guthi_core.Tracker.State.{Ended, ok, exited, aborted, fault, out_of_fuel, ◌>>=◌}
use guthi_core.WinTracker.Arrays.{
  NotFault, bind-NotFault, sees_reset, Fits, listen_part-Fits, track_file-reset,
  queue_reads-NotFault, queue_reads-not-Gives,
}
use guthi_core.WinTracker.Listen.{
  queueing, Listening, rearm, clear_reset, queue_reads, listen_part, listen,
}
use guthi_core.WinTracker.State.{Windows, WinTracker, track_file}

not_first-not-Gives : {A B : Type 0} (m : Ended A) (f : A → Ended B) → ¬ Gives m → ¬ Gives (m >>= f)
not_first-not-Gives (ok a) f n = absurd (n tt)
not_first-not-Gives exited f n = λ g. g
not_first-not-Gives aborted f n = λ g. g
not_first-not-Gives fault f n = λ g. g
not_first-not-Gives out_of_fuel f n = λ g. g

module _ (windows : Windows) (k : ℕ) where
  -- What a listening thread can come to, when other threads only track files, and none does so from
  -- the count of the directories, or the look at the flag, to the end of the loop that queues reads.
  pub data Running : Listening windows.World → Type 0 where
    started : (t : WinTracker windows.World) → Running (listen windows t)
    goes_on :
        (s s' : Listening windows.World) → Running s → listen_part windows k s ≡ ok s' → Running s'
    tracks :
        (s : Listening windows.World) (name : Bytes) (t : WinTracker windows.World)
        → Running s
        → sees_reset windows s.phase ≡ true
        → track_file windows s.tracker name ≡ ok t
        → Running (record s { tracker = t })

  Running-Fits : (s : Listening windows.World) → Running s → Fits windows s
  Running-Fits _ (started t) = λ e. absurd (cc e)
  Running-Fits s' (goes_on s _ r e) =
      subst (Always (Fits windows)) e
        (listen_part-Fits windows k s.tracker s.completed s.phase (Running-Fits s r))
  Running-Fits _ (tracks s name t r seen e) = λ not_due.
      let due : t.reset_tracking ≡ true =
        subst (Always (λ t'. t'.reset_tracking ≡ true)) e
          (track_file-reset windows s.tracker name) in
      absurd (cc (seen, due, not_due))

  -- If other threads only track files, and none does so from the count of the directories, or the
  -- look at the flag, to the end of the loop that queues reads, then this loop stays within the
  -- arrays.
  pub queueing-NotFault :
      (s : Listening windows.World)
      → Running s
      → s.phase ≡ queueing
      → NotFault (listen_part windows k s)
  unfolding listen_part
  queueing-NotFault s r at =
      let unseen : (sees_reset windows s.phase && s.tracker.reset_tracking) ≡ false =
        ap (λ p. sees_reset windows p && s.tracker.reset_tracking) at in
      rw at (
        bind-NotFault
          (queue_reads windows s.tracker.tracked_directory s.completed 0 s.tracker.world) _
          (queue_reads-NotFault windows s.tracker.tracked_directory s.completed 0 s.tracker.world
            (Running-Fits s r unseen))
          (λ _. tt))

  -- If there are more directories than elements of the arrays when the thread comes to the loop that
  -- queues reads, the loop does not end with a result.
  queueing-not-Gives :
      (t : WinTracker windows.World) (cs : List Bool)
      → length cs < length t.tracked_directory
      → ¬ Gives (listen_part windows k (record { tracker = t; completed = cs; phase = queueing }))
  unfolding listen_part
  queueing-not-Gives t cs l =
      not_first-not-Gives (queue_reads windows t.tracked_directory cs 0 t.world) _
        (queue_reads-not-Gives windows t.tracked_directory cs 0 t.world l)

  -- If a file in a directory that is new to the tracker is tracked between the count of the
  -- directories and `reset_tracking = false`, which no lock keeps apart, then its reset is lost: the
  -- thread goes on to the loop that queues reads with no reset due, and the loop does not end with a
  -- result, since it reads `completed` beyond its end, unless a read can not be queued.
  pub lost_reset-not-Gives :
      (t t' : WinTracker windows.World) (name : Bytes)
      → t.stop_listening ≡ false
      → track_file windows (record t { reset_tracking = true }) name ≡ ok t'
      → length t.tracked_directory < length t'.tracked_directory
      → (s s' : Listening windows.World) × (listen_part windows k (listen windows t) ≡ ok s)
        × (listen_part windows k (record s { tracker = t' }) ≡ ok s')
        × (s'.phase ≡ queueing)
        × (s'.tracker.reset_tracking ≡ false)
        × ¬ Gives (listen_part windows k s')
  unfolding listen_part rearm clear_reset
  lost_reset-not-Gives t t' name on e l =
      let counted = rearm windows (listen windows t) in
      (
        counted,
        clear_reset windows (record counted { tracker = t' }),
        rw on refl,
        refl,
        refl,
        refl,
        queueing-not-Gives (record t' { reset_tracking = false })
            (replicate (length t.tracked_directory) true)
            (omega (arith, length-replicate (length t.tracked_directory) true)),
      )
