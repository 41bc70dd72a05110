-- ===== src/Daemon/Loop.antt =====
-- The loop of `main` in src/daemon/runtime.cpp, with the tracker of
-- src/filesystem/file_track_linux.cpp. The tracking thread works, and the client writes, between two
-- of its turns.
use guthi_core.Base.{
  ◌%◌, ◌^◌, Option, none, some, List, [], ◌∷◌, ◌++◌, ◌==◌, if◌then◌else◌, length, take, drop,
  replicate, Bytes, c_string,
}
use guthi_core.Daemon.Dispatch.{Dispatched, ignored, sent, tracks, exits, fault, dispatch_message}
use guthi_core.Daemon.Pipe.{Pipe, write_message, read_non_blocking}
use guthi_core.Daemon.Protocol.{tracked_file_changed, prepare_message}
use guthi_core.Tracker.State
use guthi_core.Tracker.State.{
  Inotify, Ended, write_change, ChangeInfo, FileTracker, file_tracker, track_file,
  try_pop_change_info, stop,
}

-- The buffer for messages, the pipe and the tracker.
pub record DaemonState (W : Type 0) : Type 0 where
  pub msg : Bytes
  pub pipe : Pipe
  pub tracker : FileTracker W

pub data Turn (W : Type 0) : Type 0 where
  running : DaemonState W → Turn W
  -- the loop has ended and the tracker is told to stop
  stopped : DaemonState W → Turn W
  exited : Turn W
  -- an assertion has failed
  aborted : Turn W
  faulty : Turn W
  -- the fuel of the model is used up
  unfinished : Turn W

-- What happens between two turns: bytes arrive, and the tracking thread brings the tracker to a state.
pub record Meanwhile (W : Type 0) : Type 0 where
  pub arrived : Bytes
  pub listened : FileTracker W

module _ {W : Type 0} where
  -- The part of the turn behind `memset`: at most one change is popped and sent.
  unfoldable pub propagate : DaemonState W → Option ChangeInfo × FileTracker W → Turn W
  propagate s (none, t) = running (record s { tracker = t })
  propagate s (some info, t) =
      elim (prepare_message s.msg tracked_file_changed (c_string info.file)
        (length (c_string info.file) % 2 ^ 16)) [
          | none ↦ faulty
          | some (n, buf) ↦
              running
                (record s { msg = buf; pipe = write_message (take n buf) s.pipe; tracker = t })
        ]

  -- The state after `memset(msg, 0, sizeof(msg))`.
  abbrev pub cleared : DaemonState W → DaemonState W
  cleared s = record s { msg = replicate 512 0 }

  abbrev pub propagate_cleared : DaemonState W → Turn W
  propagate_cleared s = propagate (cleared s) (try_pop_change_info s.tracker)

  -- What follows a call of `TrackFile`.
  unfoldable pub after_tracking : DaemonState W → Ended (FileTracker W) → Turn W
  unfolding propagate
  after_tracking s (State.ok t) = propagate_cleared (record s { tracker = t })
  after_tracking s State.exited = exited
  after_tracking s State.aborted = aborted
  after_tracking s State.fault = faulty
  after_tracking s State.out_of_fuel = unfinished

  abbrev pub meet : Meanwhile W → DaemonState W → DaemonState W
  meet e s = record s {
    pipe = record s.pipe { incoming = s.pipe.incoming ++ e.arrived };
    tracker = e.listened;
  }

  abbrev pub proceed : (DaemonState W → Turn W) → Turn W → Turn W
  proceed next (running s) = next s
  proceed next t = t

  abbrev pub start : Pipe → W → DaemonState W
  start p w = record { msg = replicate 512 0; pipe = p; tracker = file_tracker w }

module _ (i : Inotify) where
  -- What `DispatchMessage` has done.
  unfoldable pub apply : DaemonState i.Watches → Dispatched → Turn i.Watches
  unfolding propagate after_tracking
  apply s ignored = propagate_cleared s
  apply s (sent bs) = propagate_cleared (record s { pipe = write_message bs s.pipe })
  apply s (tracks name) = after_tracking s (track_file i s.tracker name write_change)
  apply s exits = exited
  apply s fault = faulty

  -- `ReadNonBlocking` into the buffer, and the dispatch of what was read.
  unfoldable pub received : DaemonState i.Watches → Option Bytes × Pipe → Turn i.Watches
  unfolding apply
  received s (none, p) = stopped (record s { pipe = p; tracker = stop s.tracker })
  received s (some bs, p) =
      let s' = record s { msg = bs ++ drop (length bs) s.msg; pipe = p } in
      if length bs == 0
      then propagate_cleared s'
      else apply s' (dispatch_message s'.msg (length bs))

  unfoldable pub turn : DaemonState i.Watches → Turn i.Watches
  unfolding received
  turn s = received s (read_non_blocking 512 s.pipe)

  -- The loop, over what happens before each of its turns.
  unfoldable pub run : List (Meanwhile i.Watches) → DaemonState i.Watches → Turn i.Watches
  unfolding turn
  run [] s = running s
  run (e ∷ es) s = proceed (λ s'. run es s') (turn (meet e s))
