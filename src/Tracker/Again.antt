-- ===== src/Tracker/Again.antt =====
-- A file stays tracked: `TrackFile` and the branch of `ListenForChanges` for the handle of a file, in
-- src/filesystem/file_track_linux.cpp.
use guthi_core.Base.{
  ℕ, ◌≤◌, ◌≡◌, ◌⊎◌, refl, inl, inr, false, none, some, [], ◌∷◌, ◌++◌, arith, ltb, length, Bytes,
  c_string,
}
use guthi_core.Tracker.Maps.{
  nat_keyed, bytes_keyed, UnorderedMap, find, insert_new, erase, IsDistinct, find-insert_new,
  find-erase, find-erase-none,
}
use guthi_core.Tracker.State.{
  Inotify, ok, TrackFor, in_modify, write_change, FileTracker, watch, full_path, track_path,
  track_file, file_changed, handle_changed, find_last_of, filter_mask,
}

find_after_erase :
    (wd h : ℕ) (m : UnorderedMap ℕ Bytes)
    → IsDistinct m
    → (h ≡ wd) ⊎ (find h m ≡ none)
    → find h (erase wd m) ≡ none
find_after_erase wd h m d (inl e) = rw e (find-erase wd m d)
find_after_erase wd h m d (inr e) = find-erase-none h wd m e

find-kept :
    (k : Bytes) (v w : ℕ) (m : UnorderedMap Bytes ℕ)
    → find k m ≡ some w
    → find k (insert_new k v m) ≡ some w
unfolding insert_new
find-kept k v w m e = rw (insert_new, e) e

module _ (i : Inotify) (t : FileTracker i.Watches) where
  watch-ok :
      (path : Bytes) (mask h : ℕ) (w : i.Watches)
      → length path ≤ 127
      → i.add_watch t.watches path mask ≡ some (h, w)
      → watch i t.watches path mask ≡ ok (h, w)
  unfolding watch
  watch-ok path mask h w l e =
      let fits : ltb 127 (length path) ≡ false = ground arith in rw (fits, e) refl

  -- If the path of a file has a `/` and fits in its buffer, and the system watches it under a handle
  -- that the tracker does not have, `TrackFile` succeeds and keeps the name of the file, up to its
  -- first 0, under the handle.
  pub track_file-watched :
      (name : Bytes) (option : TrackFor) (p h : ℕ) (w : i.Watches)
      → length (full_path i t name) ≤ 127
      → find_last_of 47 (full_path i t name) ≡ some p
      → i.add_watch t.watches (full_path i t name) (filter_mask option) ≡ some (h, w)
      → find h t.handle_to_file_name ≡ none
      → (t' : FileTracker i.Watches) × (track_file i t name option ≡ ok t')
        × (find h t'.handle_to_file_name ≡ some (c_string name))
        × (t'.change_info ≡ t.change_info)
  unfolding track_file track_path
  track_file-watched name option p h w l slash added new =
      let fits : ltb 127 (length (full_path i t name)) ≡ false = ground arith in
      (
        record t {
          watches = w;
          name_to_file_handle = insert_new (c_string name) h t.name_to_file_handle;
          handle_to_file_name = insert_new h (c_string name) t.handle_to_file_name;
        },
        rw (fits, slash, watch-ok (full_path i t name) (filter_mask option) h w l added) refl,
        find-insert_new h (c_string name) t.handle_to_file_name new,
        refl,
      )

  -- A change of a file that is kept under a handle is queued under the file's name, behind the changes
  -- that wait, and if the system watches the file anew, under the same handle or one that the tracker
  -- does not have, the file is kept under that handle.
  pub handle_changed-watched :
      (wd h : ℕ) (name : Bytes) (w : i.Watches)
      → find wd t.handle_to_file_name ≡ some name
      → IsDistinct t.handle_to_file_name
      → length (full_path i t name) ≤ 127
      → i.add_watch t.watches (full_path i t name) in_modify ≡ some (h, w)
      → (h ≡ wd) ⊎ (find h t.handle_to_file_name ≡ none)
      → (t' : FileTracker i.Watches) × (handle_changed i t wd ≡ ok t')
        × (t'.change_info
            ≡ t.change_info ++ record { file = name; directory = []; result = write_change } ∷ [])
        × (find h t'.handle_to_file_name ≡ some (c_string name))
  unfolding handle_changed file_changed
  handle_changed-watched wd h name w known d l added new = (
    record t {
      watches = w;
      change_info =
          t.change_info ++ record { file = name; directory = []; result = write_change } ∷ [];
      name_to_file_handle = insert_new (c_string name) h t.name_to_file_handle;
      handle_to_file_name = insert_new h (c_string name) (erase wd t.handle_to_file_name);
    },
    rw (handle_changed, known, file_changed, watch-ok (full_path i t name) in_modify h w l added)
        refl,
    refl,
    find-insert_new h (c_string name) (erase wd t.handle_to_file_name)
        (find_after_erase wd h t.handle_to_file_name d new),
  )

  -- A change of a file leaves the handle that its name is kept with as it was, whichever handle the
  -- file is watched under from then on.
  pub handle_changed-old_handle :
      (wd h old : ℕ) (name : Bytes) (w : i.Watches)
      → find wd t.handle_to_file_name ≡ some name
      → length (full_path i t name) ≤ 127
      → i.add_watch t.watches (full_path i t name) in_modify ≡ some (h, w)
      → find (c_string name) t.name_to_file_handle ≡ some old
      → (t' : FileTracker i.Watches) × (handle_changed i t wd ≡ ok t')
        × (find (c_string name) t'.name_to_file_handle ≡ some old)
  unfolding handle_changed file_changed
  handle_changed-old_handle wd h old name w known l added kept = (
    record t {
      watches = w;
      change_info =
          t.change_info ++ record { file = name; directory = []; result = write_change } ∷ [];
      name_to_file_handle = insert_new (c_string name) h t.name_to_file_handle;
      handle_to_file_name = insert_new h (c_string name) (erase wd t.handle_to_file_name);
    },
    rw (handle_changed, known, file_changed, watch-ok (full_path i t name) in_modify h w l added)
        refl,
    find-kept (c_string name) h old t.name_to_file_handle kept,
  )
