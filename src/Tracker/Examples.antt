-- ===== src/Tracker/Examples.antt =====
-- src/filesystem/file_track_linux.cpp with a system that counts its handles.
use guthi_core.Base.{ℕ, suc, ◌≡◌, ◌≢◌, refl, inr, some, [], ◌∷◌, ◌++◌, arith, All, Bytes, equal}
use guthi_core.Tracker.Reports.{Reported}
use guthi_core.Tracker.Again.{track_file-watched, handle_changed-watched, handle_changed-old_handle}
use guthi_core.Tracker.Decode.{encoded, events-encoded, events-two}
use guthi_core.Tracker.Listen.{handle_event, events}
use guthi_core.Tracker.Maps.{nat_keyed, bytes_keyed, find, IsDistinct, insert_new}
use guthi_core.Tracker.Reports.{reported_files}
use guthi_core.Tracker.State.{
  Inotify, ok, in_modify, write_change, FileTracker, file_tracker, track_file, track_path, watch,
  handle_changed, find_last_of, filter_mask,
}
use guthi_core.Tracker.Tracked.{started, tracks, Tracked-Reported}

abbrev counting : Inotify
counting = record {
  Watches = ℕ;
  resolve = λ w name. 47 ∷ name;
  add_watch = λ w path mask. some (w, suc w);
}

abbrev notes : Bytes
notes = 110 ∷ 111 ∷ []

abbrev fresh : FileTracker ℕ
fresh = file_tracker 1

abbrev tracking_notes : FileTracker ℕ
tracking_notes = record fresh {
  watches = 2;
  name_to_file_handle = (notes, 1) ∷ [];
  handle_to_file_name = (1, notes) ∷ [];
}

filter_mask_test : filter_mask write_change ≡ in_modify
unfolding filter_mask
filter_mask_test = refl

track_file_test : track_file counting fresh notes write_change ≡ ok tracking_notes
unfolding track_file track_path watch find_last_of filter_mask insert_new find
track_file_test = refl

track_file-watched_test :
    (t' : FileTracker ℕ) × (track_file counting fresh notes write_change ≡ ok t')
    × (find 1 t'.handle_to_file_name ≡ some notes)
    × (t'.change_info ≡ [])
unfolding find_last_of find filter_mask
track_file-watched_test =
    track_file-watched counting fresh notes write_change 0 1 2 (omega arith) refl refl refl

handle_changed-watched_example :
    (t' : FileTracker ℕ) × (handle_changed counting tracking_notes 1 ≡ ok t')
    × (t'.change_info ≡ record { file = notes; directory = []; result = write_change } ∷ [])
    × (find 2 t'.handle_to_file_name ≡ some notes)
unfolding find
handle_changed-watched_example =
    handle_changed-watched counting tracking_notes 1 2 notes 3 refl (refl, tt) (omega arith) refl
      (inr refl)

handle_changed-old_handle_test :
    (t' : FileTracker ℕ) × (handle_changed counting tracking_notes 1 ≡ ok t')
    × (find notes t'.name_to_file_handle ≡ some 1)
unfolding find equal
handle_changed-old_handle_test =
    handle_changed-old_handle counting tracking_notes 1 2 1 notes 3 refl (omega arith) refl refl

events-encoded_example :
    events counting 2 0 16 (encoded 1 2 0 [] ++ 7 ∷ []) tracking_notes
    ≡ handle_event counting tracking_notes (record { wd = 1; len = 0 })
events-encoded_example =
    events-encoded counting tracking_notes 0 1 2 0 [] (7 ∷ []) (omega arith) (omega arith)

events-two_example :
    events counting 9 0 32 (encoded 1 2 0 [] ++ encoded 2 2 0 [] ++ []) tracking_notes
    ≢ ok tracking_notes
events-two_example =
    events-two counting tracking_notes tracking_notes 9 32 1 2 0 2 2 0 [] (omega arith)
      (omega arith) (omega arith)

Tracked-Reported_example :
    All (Reported (notes ∷ [])) (reported_files tracking_notes.change_info)
    × IsDistinct tracking_notes.handle_to_file_name
Tracked-Reported_example = Tracked-Reported counting (
    tracks {names = []} {t = fresh} {t' = tracking_notes} (started 1) notes write_change
      track_file_test)
