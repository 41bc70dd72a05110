-- ===== src/WinTracker/Examples.antt =====
-- src/filesystem/file_track.cpp with a system that numbers its handles.
use guthi_core.Base.{ℕ, suc, ◌≡◌, refl, true, false, some, [], ◌∷◌, arith, Bytes, equal}
use guthi_core.Tracker.Decode.{Gives}
use guthi_core.Tracker.Maps.{nat_keyed, bytes_keyed, find, insert_new}
use guthi_core.Tracker.State.{ok, DirectoryTrackInfo, write_change, find_last_of}
use guthi_core.WinTracker.Arrays.{NotFault}
use guthi_core.WinTracker.Batches.{Change, batch, told, consume-told}
use guthi_core.WinTracker.Entries.{consume, has_name}
use guthi_core.WinTracker.Listen.{
  resetting, queueing, clear_reset, Listening, rearm, listen_part, listen,
}
use guthi_core.WinTracker.Reach.{started, goes_on, queueing-NotFault, lost_reset-not-Gives}
use guthi_core.WinTracker.State.{Windows, WinTracker, win_tracker, track_in, track_file, push_name}

abbrev drive : Windows
drive = record {
  World = ℕ;
  full_path = λ w name. 67 ∷ 58 ∷ 92 ∷ name;
  open_directory = λ w dir. some (suc w, suc w);
  start_read = λ w h c. some w;
  finished_read = λ w h c. some ([], w);
  narrow = λ name. name;
}

abbrev notes : Bytes
notes = 110 ∷ 111 ∷ []

abbrev idle : WinTracker ℕ
idle = win_tracker 0

abbrev root_info : DirectoryTrackInfo
root_info = record { recursive = true; whole_dir_tracked = false; dir_name = 67 ∷ 58 ∷ [] }

abbrev tracking_notes : WinTracker ℕ
tracking_notes = record idle {
  world = 1;
  tracked_directory = (1, root_info) ∷ [];
  name_to_handle = (67 ∷ 58 ∷ [], 1) ∷ [];
  files_tracked_within_directory = (1, notes ∷ []) ∷ [];
  reset_tracking = true;
}

track_file_test : track_file drive idle notes ≡ ok tracking_notes
unfolding track_file track_in find_last_of insert_new find
track_file_test = refl

push_name_test : push_name 1 notes ((1, notes ∷ []) ∷ []) ≡ (1, notes ∷ notes ∷ []) ∷ []
unfolding push_name
push_name_test = refl

abbrev notes_change : Change
notes_change = record { action = 3; wide = notes; padding = 0 ∷ 0 ∷ [] }

abbrev other_change : Change
other_change = record { action = 3; wide = 120 ∷ []; padding = [] }

consume-told_example :
    (t' : WinTracker drive.World) × (consume drive 2 0
        (batch (notes_change ∷ []) other_change [])
        1
        root_info
        tracking_notes
      ≡ ok t')
    × (t'.change_info
        ≡ told drive 1 root_info ((1, notes ∷ []) ∷ []) (notes_change ∷ other_change ∷ []))
consume-told_example =
    consume-told drive 1 root_info (notes_change ∷ []) other_change [] 2 tracking_notes
      (omega arith) (omega arith)

told_test :
    told drive 1 root_info ((1, notes ∷ []) ∷ []) (notes_change ∷ other_change ∷ [])
    ≡ record { file = notes; directory = 67 ∷ 58 ∷ []; result = write_change } ∷ []
unfolding has_name find equal
told_test = refl

-- The thread behind the new arrays, and at the loop that queues reads.
abbrev counted : Listening ℕ
counted = record {
  tracker = record idle { reset_tracking = true };
  completed = [];
  phase = resetting;
}

abbrev rearmed : Listening ℕ
rearmed = record { tracker = idle; completed = []; phase = queueing }

listen_part_test : listen_part drive 1 (listen drive idle) ≡ ok counted
unfolding listen_part rearm
listen_part_test = refl

cleared_test : listen_part drive 1 counted ≡ ok rearmed
unfolding listen_part clear_reset
cleared_test = refl

queueing-NotFault_example : NotFault (listen_part drive 1 rearmed)
queueing-NotFault_example =
    queueing-NotFault drive 1 rearmed
      (goes_on counted rearmed (goes_on (listen drive idle) counted (started idle) listen_part_test)
        cleared_test)
      refl

track_due_test : track_file drive (record idle { reset_tracking = true }) notes ≡ ok tracking_notes
unfolding track_file track_in find_last_of insert_new find
track_due_test = refl

lost_reset-not-Gives_example :
    (s s' : Listening ℕ) × (listen_part drive 1 (listen drive idle) ≡ ok s)
    × (listen_part drive 1 (record s { tracker = tracking_notes }) ≡ ok s')
    × (s'.phase ≡ queueing)
    × (s'.tracker.reset_tracking ≡ false)
    × ¬ Gives (listen_part drive 1 s')
lost_reset-not-Gives_example =
    lost_reset-not-Gives drive 1 idle tracking_notes notes refl track_due_test (omega arith)
