-- ===== src/Tracker/Tracked.antt =====
-- The states that the calls and reads of src/filesystem/file_track_linux.cpp bring a tracker to.
use guthi_core.Base.{
  ℕ, ◌≡◌, subst, inl, inr, Bool, true, false, Option, List, [], ◌∷◌, ◌++◌, ltb, Bool-cases,
  Option-cases, length, All, Bytes, c_string,
}
use guthi_core.Tracker.Listen.{listen_round}
use guthi_core.Tracker.Maps.{
  nat_keyed, bytes_keyed, insert_new-AllValues, IsDistinct, insert_new-IsDistinct,
}
use guthi_core.Tracker.Reports.{
  Always, Reported, IsNamed, bind-Always, Reported-new, AllValues-more, All-more,
  listen_round-Always, reported_files,
}
use guthi_core.Tracker.State.{
  Inotify, ok, TrackFor, ChangeInfo, FileTracker, file_tracker, watch, full_path, track_folder,
  track_path, track_file, try_pop_change_info, pop_front, find_last_of, filter_mask,
}

module _ (i : Inotify) (names : List Bytes) where
  track_file-Always :
      (t : FileTracker i.Watches) (name : Bytes) (option : TrackFor)
      → IsNamed i names t
      → Always (IsNamed i (names ++ name ∷ [])) (track_file i t name option)
  unfolding track_file track_path
  track_file-Always t name option (v, q, d) =
      elim (Bool-cases (ltb 127 (length (full_path i t name)))) [
        | inl b ↦ rw b tt
        | inr b ↦ rw b (elim (Option-cases (find_last_of 47 (full_path i t name))) [
          | inl e ↦ rw e tt
          | inr (p, e) ↦ rw e (
              bind-Always (IsNamed i (names ++ name ∷ []))
                (watch i t.watches (full_path i t name) (filter_mask option)) _
                (λ w. (
                  insert_new-AllValues (Reported (names ++ name ∷ [])) w.0 (c_string name)
                      t.handle_to_file_name (Reported-new names name)
                      (AllValues-more names name t.handle_to_file_name v),
                  All-more names name t.change_info q,
                  insert_new-IsDistinct w.0 (c_string name) t.handle_to_file_name d,
                )))
        ])
      ]

  track_folder-Always :
      (t : FileTracker i.Watches) (is_directory : Bool) (dir : Bytes) (option : TrackFor)
      → IsNamed i names t
      → Always (IsNamed i names) (track_folder i t is_directory dir option)
  unfolding track_folder
  track_folder-Always t false dir option n = tt
  track_folder-Always t true dir option n =
      bind-Always (IsNamed i names) (watch i t.watches (full_path i t dir) (filter_mask option)) _
        (λ w. n)

  pop_front-IsNamed :
      (t : FileTracker i.Watches) (cs : List ChangeInfo)
      → IsNamed i names t
      → All (Reported names) (reported_files cs)
      → IsNamed i names (pop_front t cs).1
  unfolding pop_front
  pop_front-IsNamed t [] n q = n
  pop_front-IsNamed t (c ∷ cs) (v, _, d) (p, q) = (v, q, d)

  try_pop-IsNamed :
      (t : FileTracker i.Watches) → IsNamed i names t → IsNamed i names (try_pop_change_info t).1
  unfolding try_pop_change_info
  try_pop-IsNamed t n = pop_front-IsNamed t t.change_info n n.1

-- The states of a tracker, with the names that `TrackFile` was called for, in order: files and
-- folders are tracked, reads are listened to, and changes are popped, each a step that ends with a
-- result.
pub data Tracked (i : Inotify) : List Bytes → FileTracker i.Watches → Type 0 where
  started : (w : i.Watches) → Tracked i [] (file_tracker w)
  tracks :
      {names : List Bytes} {t t' : FileTracker i.Watches}
      → Tracked i names t
      → (name : Bytes) (option : TrackFor) → track_file i t name option ≡ ok t'
      → Tracked i (names ++ name ∷ []) t'
  tracks_folder :
      {names : List Bytes} {t t' : FileTracker i.Watches}
      → Tracked i names t
      → (is_directory : Bool) (dir : Bytes) (option : TrackFor)
      → track_folder i t is_directory dir option ≡ ok t'
      → Tracked i names t'
  listens :
      {names : List Bytes} {t t' : FileTracker i.Watches}
      → Tracked i names t
      → (k : ℕ) (r : Option Bytes) (buffer buffer' : Bytes)
      → listen_round i k r (buffer, t) ≡ ok (buffer', t')
      → Tracked i names t'
  pops :
      {names : List Bytes} {t : FileTracker i.Watches}
      → Tracked i names t
      → Tracked i names (try_pop_change_info t).1

Tracked-IsNamed :
    (i : Inotify) {names : List Bytes} {t : FileTracker i.Watches}
    → Tracked i names t
    → IsNamed i names t
Tracked-IsNamed i (started w) = (tt, tt, tt)
Tracked-IsNamed i (tracks {names} {t} {t'} before name option done) =
    subst (Always (IsNamed i (names ++ name ∷ []))) done
      (track_file-Always i names t name option (Tracked-IsNamed i before))
Tracked-IsNamed i (tracks_folder {names} {t} {t'} before b dir option done) =
    subst (Always (IsNamed i names)) done
      (track_folder-Always i names t b dir option (Tracked-IsNamed i before))
Tracked-IsNamed i (listens {names} {t} {t'} before k r buffer buffer' done) =
    subst (Always (λ s. IsNamed i names s.1)) done
      (listen_round-Always i names k r buffer t (Tracked-IsNamed i before))
Tracked-IsNamed i (pops {names} {t} before) = try_pop-IsNamed i names t (Tracked-IsNamed i before)

-- In every state of a tracker, the file of each change in the queue is the name, up to its first 0,
-- of a file that `TrackFile` was called for, or empty, for a folder; and no handle of a file is kept
-- twice.
pub Tracked-Reported :
    (i : Inotify) {names : List Bytes} {t : FileTracker i.Watches}
    → Tracked i names t
    → All (Reported names) (reported_files t.change_info) × IsDistinct t.handle_to_file_name
Tracked-Reported i before = let n = Tracked-IsNamed i before in (n.1, n.2)
