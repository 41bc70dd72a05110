-- ===== src/WinTracker/State.antt =====
-- The state of a `FileTracker` on Windows, `TrackFolder` and `TrackFile` of
-- src/filesystem/file_track.cpp. A handle is a number; the filters that both compute are never used.
use guthi_core.Base.{
  ℕ, suc, Bool, true, false, not, Option, none, some, List, [], ◌∷◌, ◌++◌, if◌then◌else◌, take,
  drop, Bytes, c_string,
}
use guthi_core.Tracker.Maps.{nat_keyed, bytes_keyed, UnorderedMap, find, insert_new}
use guthi_core.Tracker.State.{
  Ended, ok, exited, aborted, DirectoryTrackInfo, ChangeInfo, find_last_of,
}

-- What the code asks Windows for. `full_path` is the string `path` behind `GetFullPathNameA` and
-- `resize`; `open_directory` is `CreateFileA`, where none is INVALID_HANDLE_VALUE; `start_read` is
-- `ReadDirectoryChangesW` for a handle and an index, where none is a failure; `finished_read` is
-- `GetOverlappedResult`, with the contents of the buffer of that index, where none is not yet;
-- `narrow` is `WideCharToMultiByte`, as the string in `file_name`.
pub record Windows : Type 1 where
  pub World : Type 0
  pub full_path : World → Bytes → Bytes
  pub open_directory : World → Bytes → Option (ℕ × World)
  pub start_read : World → ℕ → ℕ → Option World
  pub finished_read : World → ℕ → ℕ → Option (Bytes × World)
  pub narrow : Bytes → Bytes

pub record WinTracker (W : Type 0) : Type 0 where
  pub world : W
  pub tracked_directory : UnorderedMap ℕ DirectoryTrackInfo
  pub name_to_handle : UnorderedMap Bytes ℕ
  pub files_tracked_within_directory : UnorderedMap ℕ (List Bytes)
  pub change_info : List ChangeInfo
  pub reset_tracking : Bool
  pub stop_listening : Bool

abbrev pub win_tracker : {W : Type 0} → W → WinTracker W
win_tracker w = record {
  world = w;
  tracked_directory = [];
  name_to_handle = [];
  files_tracked_within_directory = [];
  change_info = [];
  reset_tracking = false;
  stop_listening = false;
}

-- `push_back` to the vector of a key, which is inserted if it is not there.
unfoldable pub push_name : ℕ → Bytes → UnorderedMap ℕ (List Bytes) → UnorderedMap ℕ (List Bytes)
push_name h name [] = (h, name ∷ []) ∷ []
push_name h name ((k, names) ∷ m) =
    let rest = push_name h name m in
    if nat_keyed.same k h then (k, names ++ name ∷ []) ∷ m else (k, names) ∷ rest

module _ (windows : Windows) where
  unfoldable pub track_folder :
      WinTracker windows.World → Bool → Bytes → Ended (WinTracker windows.World)
  track_folder t is_directory dir =
      if not is_directory then aborted else elim (windows.open_directory t.world (c_string dir)) [
        | none ↦ exited
        | some (h, w) ↦ ok (record t {
          world = w;
          tracked_directory =
              insert_new h (record { recursive = true; whole_dir_tracked = true; dir_name = dir })
                t.tracked_directory;
        })
      ]

  -- The branch of `TrackFile` for a directory that is tracked under a handle.
  abbrev pub track_known : WinTracker windows.World → ℕ → Bytes → WinTracker windows.World
  track_known t h file_name = record t {
    files_tracked_within_directory = push_name h file_name t.files_tracked_within_directory;
    reset_tracking = true;
  }

  -- The branch for a directory that has just been opened.
  abbrev pub track_new :
      WinTracker windows.World → Bytes → Bytes → ℕ → windows.World → WinTracker windows.World
  track_new t dir file_name h w = record t {
    world = w;
    files_tracked_within_directory = insert_new h (file_name ∷ []) t.files_tracked_within_directory;
    tracked_directory =
        insert_new h (record { recursive = true; whole_dir_tracked = false; dir_name = dir })
          t.tracked_directory;
    name_to_handle = insert_new dir h t.name_to_handle;
    reset_tracking = true;
  }

  unfoldable pub track_in :
      WinTracker windows.World → Bytes → Bytes → Ended (WinTracker windows.World)
  track_in t dir file_name = elim (find dir t.name_to_handle) [
    | some h ↦ ok (track_known t h file_name)
    | none ↦ elim (windows.open_directory t.world (c_string dir)) [
      | none ↦ exited
      | some (h, w) ↦ ok (track_new t dir file_name h w)
    ]
  ]

  unfoldable pub track_file : WinTracker windows.World → Bytes → Ended (WinTracker windows.World)
  unfolding track_in
  track_file t name =
      let path = windows.full_path t.world (c_string name) in
      elim (find_last_of 92 path) [
        | none ↦ exited
        | some p ↦ track_in t (take p path) (drop (suc p) path)
      ]
