-- ===== src/Tracker/State.antt =====
-- The state of a `FileTracker` on Linux, and its operations in src/filesystem/file_track.hpp and
-- src/filesystem/file_track_linux.cpp. A handle is the number of its 32 bits.
use guthi_core.Base.{
  ℕ, suc, ◌+◌, ◌/◌, ◌%◌, Bool, true, false, not, Option, none, some, List, [], ◌∷◌, ◌++◌, ltb, ◌==◌,
  if◌then◌else◌, length, Bytes, c_string,
}
use guthi_core.Tracker.Maps.{nat_keyed, bytes_keyed, UnorderedMap, find, insert_new, erase}

-- What the code asks the system for. `Watches` is the state of the system; `resolve` is the string
-- that `realpath` leaves in the buffer; `add_watch` is `inotify_add_watch`, where none is -1.
pub record Inotify : Type 1 where
  pub Watches : Type 0
  pub resolve : Watches → Bytes → Bytes
  pub add_watch : Watches → Bytes → ℕ → Option (ℕ × Watches)

-- How an operation ends: with a result, by `exit(-1)`, by a failed assertion, by a write or read
-- beyond a buffer, or when the model's fuel is used up.
pub data Ended {ℓ} (A : Type ℓ) : Type ℓ where
  ok : A → Ended A
  exited : Ended A
  aborted : Ended A
  fault : Ended A
  out_of_fuel : Ended A

module _ {ℓ κ} {A : Type ℓ} {B : Type κ} where
  infixl 5 ◌>>=◌
  abbrev pub ◌>>=◌ : Ended A → (A → Ended B) → Ended B
  ok a >>= f = f a
  exited >>= f = exited
  aborted >>= f = aborted
  fault >>= f = fault
  out_of_fuel >>= f = out_of_fuel

-- `TrackFor`, a byte
abbrev pub TrackFor : Type 0
TrackFor = ℕ

abbrev pub name_change : TrackFor
name_change = 1

abbrev pub attr_change : TrackFor
attr_change = 2

abbrev pub size_change : TrackFor
size_change = 4

abbrev pub write_change : TrackFor
write_change = 8

-- `TestEnum`, for an enumerator that is a power of 2.
abbrev pub test_enum : TrackFor → TrackFor → Bool
test_enum var val = (var / val) % 2 == 1

abbrev pub in_modify : ℕ
in_modify = 2

abbrev pub in_attrib : ℕ
in_attrib = 4

-- `mask | bit`, for a bit that is a power of 2.
abbrev pub with_bit : ℕ → ℕ → ℕ
with_bit bit mask = if (mask / bit) % 2 == 1 then mask else mask + bit

abbrev pub set_if : Bool → ℕ → ℕ → ℕ
set_if test bit mask = if test then with_bit bit mask else mask

unfoldable pub filter_mask : TrackFor → ℕ
filter_mask option = set_if (test_enum option attr_change) in_attrib (
    set_if (test_enum option size_change) in_attrib (
      set_if (test_enum option write_change) in_modify
        (set_if (test_enum option name_change) in_attrib 0)))

pub record DirectoryTrackInfo : Type 0 where
  pub recursive : Bool
  pub whole_dir_tracked : Bool
  pub dir_name : Bytes

pub record ChangeInfo : Type 0 where
  pub file : Bytes
  pub directory : Bytes
  pub result : TrackFor

pub record FileTracker (W : Type 0) : Type 0 where
  pub watches : W
  pub tracked_directory : UnorderedMap ℕ DirectoryTrackInfo
  pub name_to_dir_handle : UnorderedMap Bytes ℕ
  pub name_to_file_handle : UnorderedMap Bytes ℕ
  pub handle_to_file_name : UnorderedMap ℕ Bytes
  pub change_info : List ChangeInfo
  pub stop_listening : Bool

-- The constructor, where `inotify_init` gives the state of the system.
abbrev pub file_tracker : {W : Type 0} → W → FileTracker W
file_tracker w = record {
  watches = w;
  tracked_directory = [];
  name_to_dir_handle = [];
  name_to_file_handle = [];
  handle_to_file_name = [];
  change_info = [];
  stop_listening = false;
}

-- `find_last_of` of a character.
unfoldable pub find_last_of : ℕ → Bytes → Option ℕ
find_last_of c [] = none
find_last_of c (b ∷ bs) = elim (find_last_of c bs) [
  | some n ↦ some (suc n)
  | none ↦ if b == c then some 0 else none
]

module _ (i : Inotify) where
  -- `realpath` into a buffer of 128 bytes, then `inotify_add_watch` and its assertion.
  unfoldable pub watch : i.Watches → Bytes → ℕ → Ended (ℕ × i.Watches)
  watch w path mask =
      if ltb 127 (length path)
      then fault
      else elim (i.add_watch w path mask) [ none ↦ aborted | some r ↦ ok r ]

  abbrev pub full_path : FileTracker i.Watches → Bytes → Bytes
  full_path t name = i.resolve t.watches (c_string name)

  unfoldable pub track_folder :
      FileTracker i.Watches → Bool → Bytes → TrackFor → Ended (FileTracker i.Watches)
  unfolding watch
  track_folder t is_directory dir option =
      if not is_directory
      then aborted
      else (watch t.watches (full_path t dir) (filter_mask option) >>= λ r. ok (record t {
        watches = r.1;
        tracked_directory =
            insert_new r.0 (record { recursive = true; whole_dir_tracked = true; dir_name = dir })
              t.tracked_directory;
        name_to_dir_handle = insert_new dir r.0 t.name_to_dir_handle;
      }))

  -- The branch of `TrackFile` with a `/` in the path. The parts of the path are only printed.
  unfoldable pub track_path :
      FileTracker i.Watches → Bytes → TrackFor → Ended (FileTracker i.Watches)
  unfolding watch
  track_path t name option = watch t.watches (full_path t name) (filter_mask option) >>= λ r.
      ok (record t {
        watches = r.1;
        name_to_file_handle = insert_new (c_string name) r.0 t.name_to_file_handle;
        handle_to_file_name = insert_new r.0 (c_string name) t.handle_to_file_name;
      })

  unfoldable pub track_file :
      FileTracker i.Watches → Bytes → TrackFor → Ended (FileTracker i.Watches)
  unfolding track_path
  track_file t name option =
      if ltb 127 (length (full_path t name))
      then fault
      else elim (find_last_of 47 (full_path t name)) [
        | none ↦ exited
        | some _ ↦ track_path t name option
      ]

  abbrev pub push_change : FileTracker i.Watches → ChangeInfo → FileTracker i.Watches
  push_change t info = record t { change_info = t.change_info ++ info ∷ [] }

  -- The branch of `ListenForChanges` for a handle of a file: it is watched anew.
  unfoldable pub file_changed : FileTracker i.Watches → ℕ → Bytes → Ended (FileTracker i.Watches)
  unfolding watch
  file_changed t wd name = watch t.watches (full_path t name) in_modify >>= λ r. ok (record t {
    watches = r.1;
    change_info =
        t.change_info ++ record { file = name; directory = []; result = write_change } ∷ [];
    name_to_file_handle = insert_new (c_string name) r.0 t.name_to_file_handle;
    handle_to_file_name = insert_new r.0 (c_string name) (erase wd t.handle_to_file_name);
  })

  unfoldable pub directory_changed : FileTracker i.Watches → ℕ → FileTracker i.Watches
  directory_changed t wd = elim (find wd t.tracked_directory) [
    | none ↦ t
    | some d ↦ push_change t (record { file = []; directory = d.dir_name; result = write_change })
  ]

  -- The branch for an event without a name.
  unfoldable pub handle_changed : FileTracker i.Watches → ℕ → Ended (FileTracker i.Watches)
  unfolding file_changed directory_changed
  handle_changed t wd = elim (find wd t.handle_to_file_name) [
    | some name ↦ file_changed t wd name
    | none ↦ ok (directory_changed t wd)
  ]

module _ {W : Type 0} where
  unfoldable pub pop_front : FileTracker W → List ChangeInfo → Option ChangeInfo × FileTracker W
  pop_front t [] = (none, t)
  pop_front t (info ∷ rest) = (some info, record t { change_info = rest })

  -- `TryPopChangeInfo`: the queue's first entry, if there is one.
  unfoldable pub try_pop_change_info : FileTracker W → Option ChangeInfo × FileTracker W
  unfolding pop_front
  try_pop_change_info t = pop_front t t.change_info

  abbrev pub stop : FileTracker W → FileTracker W
  stop t = record t { stop_listening = true }
