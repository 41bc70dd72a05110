-- ===== src/WinTracker/Entries.antt =====
-- The loop of `ListenForChanges` in src/filesystem/file_track.cpp over the changes that one read
-- gives. Numbers in the buffer have their lowest byte first.
use guthi_core.Base.{
  ℕ, zero, suc, ◌+◌, ◌%◌, ◌^◌, Bool, false, ◌||◌, Option, none, some, List, [], ◌∷◌, ◌++◌, ltb,
  ◌==◌, if◌then◌else◌, length, take, drop, Bytes, equal,
}
use guthi_core.Tracker.Listen.{word}
use guthi_core.Tracker.Maps.{nat_keyed, find}
use guthi_core.Tracker.State.{Ended, ok, fault, out_of_fuel, DirectoryTrackInfo, write_change}
use guthi_core.WinTracker.State.{Windows, WinTracker}

-- `_FILE_NOTIFY_INFORMATION`, without its action, which is only printed.
pub record NotifyInformation : Type 0 where
  pub next_entry_offset : ℕ
  pub wide_name : Bytes

-- The bytes of the name, of which there are `FileNameLength`.
abbrev pub with_name : ℕ → ℕ → Bytes → Option NotifyInformation
with_name next len rest =
    if ltb (length rest) len
    then none
    else some (record { next_entry_offset = next; wide_name = take len rest })

-- The entry at the start of the bytes; none if they end before it does.
unfoldable pub entry_at : Bytes → Option NotifyInformation
entry_at (a ∷ b ∷ c ∷ d ∷ _ ∷ _ ∷ _ ∷ _ ∷ e ∷ f ∷ g ∷ h ∷ rest) =
    with_name (word a b c d) (word e f g h) rest
entry_at _ = none

-- `std::find` in the vector of names.
unfoldable pub has_name : Bytes → List Bytes → Bool
has_name name [] = false
has_name name (n ∷ ns) = equal n name || has_name name ns

module _ (windows : Windows) where
  abbrev pub push_file :
      WinTracker windows.World → DirectoryTrackInfo → Bytes → WinTracker windows.World
  push_file t info name = record t {
    change_info =
        t.change_info
        ++ record { file = name; directory = info.dir_name; result = write_change } ∷ [];
  }

  -- What is done with the name of an entry, for a directory's handle.
  unfoldable pub handle_name :
      WinTracker windows.World → ℕ → DirectoryTrackInfo → Bytes → WinTracker windows.World
  unfolding has_name
  handle_name t h info name =
      if info.whole_dir_tracked
      then push_file t info name
      else elim (find h t.files_tracked_within_directory) [
        | none ↦ t
        | some names ↦ if has_name name names then push_file t info name else t
      ]

  -- The loop from `bytes_consumed` on. The fuel bounds its rounds.
  unfoldable pub consume :
      ℕ
      → ℕ
      → Bytes
      → ℕ
      → DirectoryTrackInfo
      → WinTracker windows.World
      → Ended (WinTracker windows.World)
  unfolding entry_at handle_name
  consume zero consumed buffer h info t = out_of_fuel
  consume (suc k) consumed buffer h info t = elim (entry_at (drop consumed buffer)) [
    | none ↦ fault
    | some e ↦
        let t' = handle_name t h info (windows.narrow e.wide_name) in
        let rest = consume k ((consumed + e.next_entry_offset) % 2 ^ 32) buffer h info t' in
        if e.next_entry_offset == 0 then ok t' else rest
  ]
