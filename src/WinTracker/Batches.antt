-- ===== src/WinTracker/Batches.antt =====
-- The changes of one read as Windows lays them out in the buffer, and what the loop of
-- `ListenForChanges` in src/filesystem/file_track.cpp makes of them.
use guthi_core.Base.{
  ℕ, zero, suc, ◌+◌, ◌%◌, ◌^◌, ◌<◌, ◌≤◌, ◌≡◌, refl, sym, ap, ◌∙◌, inl, inr, Bool, true, false, none,
  some, List, [], ◌∷◌, ◌++◌, append_assoc, arith, ltb, ◌==◌, if◌then◌else◌, Bool-cases,
  Option-cases, length, drop, length-append, take-append, drop-append, Bytes, append-nil,
}
use guthi_core.Tracker.Decode.{word_bytes, word-word_bytes}
use guthi_core.Tracker.Maps.{nat_keyed, find, UnorderedMap}
use guthi_core.Tracker.State.{ok, DirectoryTrackInfo, ChangeInfo, write_change}
use guthi_core.WinTracker.Entries.{
  NotifyInformation, entry_at, has_name, push_file, handle_name, consume,
}
use guthi_core.WinTracker.State.{Windows, WinTracker}

-- A change: its action, the bytes of the name, and the bytes that fill up the space to the next.
pub record Change : Type 0 where
  pub action : ℕ
  pub wide : Bytes
  pub padding : Bytes

abbrev pub entry_bytes : ℕ → Change → Bytes → Bytes
entry_bytes next c rest =
    word_bytes next ++ (word_bytes c.action ++ (word_bytes (length c.wide) ++ (c.wide ++ rest)))

-- The changes in front of the last one, the last, and the bytes behind it.
abbrev pub batch : List Change → Change → Bytes → Bytes
batch [] last rest = entry_bytes 0 last rest
batch (c ∷ cs) last rest =
    entry_bytes (12 + length c.wide + length c.padding) c (c.padding ++ batch cs last rest)

entry_at-entry_bytes :
    (next : ℕ) (c : Change) (rest : Bytes)
    → next < 2 ^ 32
    → length c.wide < 2 ^ 32
    → entry_at (entry_bytes next c rest)
      ≡ some (record { next_entry_offset = next; wide_name = c.wide })
unfolding entry_at
entry_at-entry_bytes next c rest h k =
    let size = length-append c.wide rest in
    let inside : ltb (length (c.wide ++ rest)) (length c.wide) ≡ false = ground arith in
    rw
      (
        word-word_bytes next h,
        word-word_bytes (length c.wide) k,
        inside,
        take-append (length c.wide) c.wide rest refl,
      )
      refl

length-entry_bytes :
    (next : ℕ) (c : Change) (rest : Bytes)
    → length (entry_bytes next c rest) ≡ 12 + length c.wide + length rest
length-entry_bytes next c rest = omega (arith, length-append c.wide rest)

entry_bytes-append :
    (next : ℕ) (c : Change) (rest : Bytes)
    → entry_bytes next c (c.padding ++ rest) ≡ entry_bytes next c c.padding ++ rest
entry_bytes-append next c rest = rw (append_assoc c.wide c.padding rest) refl

module _ (windows : Windows) (h : ℕ) (info : DirectoryTrackInfo) where
  -- Whether a change of a file of this name is reported.
  abbrev pub is_told : UnorderedMap ℕ (List Bytes) → Bytes → Bool
  is_told files name =
      if info.whole_dir_tracked
      then true
      else elim (find h files) [ none ↦ false | some names ↦ has_name name names ]

  abbrev pub handle_all : List Change → WinTracker windows.World → WinTracker windows.World
  handle_all [] t = t
  handle_all (c ∷ cs) t = handle_all cs (handle_name windows t h info (windows.narrow c.wide))

  -- The changes to report, in their order.
  abbrev pub told : UnorderedMap ℕ (List Bytes) → List Change → List ChangeInfo
  told files [] = []
  told files (c ∷ cs) =
      let rest = told files cs in
      if is_told files (windows.narrow c.wide)
      then record { file = windows.narrow c.wide; directory = info.dir_name; result = write_change }
        ∷ rest
      else rest

  consume-round :
      (k consumed : ℕ) (buffer : Bytes) (t : WinTracker windows.World) {e : NotifyInformation}
      → entry_at (drop consumed buffer) ≡ some e
      → consume windows (suc k) consumed buffer h info t ≡ (
          if e.next_entry_offset == 0
          then ok (handle_name windows t h info (windows.narrow e.wide_name))
          else consume windows k
              ((consumed + e.next_entry_offset) % 2 ^ 32)
              buffer
              h
              info
              (handle_name windows t h info (windows.narrow e.wide_name)))
  unfolding consume
  consume-round k consumed buffer t at_entry = rw (consume, at_entry) refl

  entry_behind :
      (front : Bytes) (next : ℕ) (c : Change) (rest : Bytes)
      → next < 2 ^ 32
      → length c.wide < 2 ^ 32
      → entry_at (drop (length front) (front ++ entry_bytes next c rest))
        ≡ some (record { next_entry_offset = next; wide_name = c.wide })
  entry_behind front next c rest a b =
      ap entry_at (drop-append (length front) front (entry_bytes next c rest) refl)
      ∙ entry_at-entry_bytes next c rest a b

  -- Every change of a read is handled, in order, by as many rounds as there are changes.
  consume-batch :
      (before : List Change) (last : Change) (front rest : Bytes) (k : ℕ)
      (t : WinTracker windows.World)
      → length front + length (batch before last rest) < 2 ^ 32
      → length before < k
      → consume windows k (length front) (front ++ batch before last rest) h info t
        ≡ ok (handle_all (before ++ last ∷ []) t)
  consume-batch before last front rest zero t room l = absurd (omega arith)
  consume-batch [] last front rest (suc k) t room l =
      let size = length-entry_bytes 0 last rest in
      consume-round k (length front) (front ++ batch [] last rest) t
        (entry_behind front 0 last rest (omega arith) (omega arith))
  consume-batch (c ∷ cs) last front rest (suc k) t room l =
      let next = 12 + length c.wide + length c.padding in
      let entry = entry_bytes next c c.padding in
      let behind = batch cs last rest in
      let t' = handle_name windows t h info (windows.narrow c.wide) in
      let size = length-entry_bytes next c (c.padding ++ behind) in
      let padded = length-append c.padding behind in
      let entry_size = length-entry_bytes next c c.padding in
      let front_size = length-append front entry in
      let more : (next == 0) ≡ false = ground arith in
      let to : (length front + next) % 2 ^ 32 ≡ length (front ++ entry) = omega arith in
      let split : front ++ batch (c ∷ cs) last rest ≡ (front ++ entry) ++ behind =
        ap (◌++◌ front) (entry_bytes-append next c behind)
        ∙ sym (append_assoc front entry behind) in
      consume-round k (length front) (front ++ batch (c ∷ cs) last rest) t
        (entry_behind front next c (c.padding ++ behind) (omega arith) (omega arith))
      ∙ rw (more, to, split)
          (consume-batch cs last (front ++ entry) rest k t' (omega arith) (omega arith))

  pub handle_name-is_told :
      (t : WinTracker windows.World) (name : Bytes)
      → handle_name windows t h info name ≡ (
          if is_told t.files_tracked_within_directory name
          then push_file windows t info name
          else t)
  unfolding handle_name
  handle_name-is_told t name = elim (Bool-cases info.whole_dir_tracked) [
    | inl e ↦ simp e refl
    | inr e ↦ simp e (elim (Option-cases (find h t.files_tracked_within_directory)) [
      | inl none_there ↦ rw none_there refl
      | inr (names, there) ↦ rw there refl
    ])
  ]

  told-cons :
      (t : WinTracker windows.World) (c : Change) (cs : List Change)
      → (handle_name windows t h info (windows.narrow c.wide)).change_info
          ++ told
              (handle_name windows t h info (windows.narrow c.wide)).files_tracked_within_directory
              cs
        ≡ t.change_info ++ told t.files_tracked_within_directory (c ∷ cs)
  told-cons t c cs =
      let name = windows.narrow c.wide in
      rw (handle_name-is_told t name)
        (elim (Bool-cases (is_told t.files_tracked_within_directory name)) [
          | inl e ↦ rw e (append_assoc t.change_info _ _)
          | inr e ↦ rw e refl
        ])

  handle_all-told :
      (cs : List Change) (t : WinTracker windows.World)
      → (handle_all cs t).change_info ≡ t.change_info ++ told t.files_tracked_within_directory cs
  handle_all-told [] t = sym (append-nil t.change_info)
  handle_all-told (c ∷ cs) t =
      handle_all-told cs (handle_name windows t h info (windows.narrow c.wide)) ∙ told-cons t c cs

  -- If a read gives changes, each with its name in at most as many bytes as the buffer holds, the loop
  -- over them ends in as many rounds as there are changes, whatever stands behind them, and queues the
  -- changes of files that are tracked in the directory, or of all if the whole directory is, in their
  -- order.
  pub consume-told :
      (before : List Change) (last : Change) (rest : Bytes) (k : ℕ) (t : WinTracker windows.World)
      → length (batch before last rest) ≤ 1024
      → length before < k
      → (t' : WinTracker windows.World) × (consume windows k 0 (batch before last rest) h info t
          ≡ ok t')
        × (t'.change_info
            ≡ t.change_info ++ told t.files_tracked_within_directory (before ++ last ∷ []))
  consume-told before last rest k t room l = (
    handle_all (before ++ last ∷ []) t,
    consume-batch before last [] rest k t (omega arith) l,
    handle_all-told (before ++ last ∷ []) t,
  )
