-- ===== src/Tracker/Reports.antt =====
-- What a `FileTracker` reports: only changes of files that `TrackFile` was called for, in
-- src/filesystem/file_track_linux.cpp.
use guthi_core.Base.{
  ℕ, zero, suc, ◌^◌, ◌≡◌, ◌⊎◌, refl, ap, ◌∙◌, inl, inr, Option, none, some, List, [], ◌∷◌, ◌++◌,
  map, arith, ltb, leb, ◌==◌, Bool-cases, Option-cases, length, drop, All, Bytes, c_string,
}
use guthi_core.Tracker.Listen.{InotifyEvent, event_at, handle_event, next_pos, events, listen_round}
use guthi_core.Tracker.Maps.{
  nat_keyed, bytes_keyed, UnorderedMap, find, erase, AllValues, find-AllValues,
  insert_new-AllValues, erase-AllValues, IsDistinct, insert_new-IsDistinct, erase-IsDistinct,
}
use guthi_core.Tracker.State.{
  Inotify, Ended, ok, exited, aborted, fault, out_of_fuel, ◌>>=◌, in_modify, ChangeInfo,
  FileTracker, watch, full_path, file_changed, directory_changed, handle_changed,
}

-- The names that the tracking thread reports: it keeps each tracked name up to its first 0, and
-- reports a directory by an empty name.
abbrev pub Reported : List Bytes → Bytes → Type 0
Reported [] name = name ≡ []
Reported (m ∷ ms) name = (name ≡ c_string m) ⊎ Reported ms name

-- A result, if there is one, satisfies `P`.
abbrev pub Always : {A : Type 0} (P : A → Type 0) → Ended A → Type 0
Always P (ok a) = P a
Always P _ = Unit {0}

pub bind-Always :
    {A B : Type 0} (P : B → Type 0) (m : Ended A) (f : A → Ended B)
    → ((a : A) → Always P (f a))
    → Always P (m >>= f)
bind-Always P (ok a) f h = h a
bind-Always P exited f h = tt
bind-Always P aborted f h = tt
bind-Always P fault f h = tt
bind-Always P out_of_fuel f h = tt

pub bind-Always_then :
    {A B : Type 0} (P : A → Type 0) (Q : B → Type 0) (m : Ended A) (f : A → Ended B)
    → Always P m
    → ((a : A) → P a → Always Q (f a))
    → Always Q (m >>= f)
bind-Always_then P Q (ok a) f p h = h a p
bind-Always_then P Q exited f p h = tt
bind-Always_then P Q aborted f p h = tt
bind-Always_then P Q fault f p h = tt
bind-Always_then P Q out_of_fuel f p h = tt

c_string-c_string : (bs : Bytes) → c_string (c_string bs) ≡ c_string bs
c_string-c_string [] = refl
c_string-c_string (b ∷ bs) = ground (arith, c_string-c_string bs)

c_string-Reported :
    (names : List Bytes) (n : Bytes) → Reported names n → Reported names (c_string n)
c_string-Reported [] n e = ap c_string e
c_string-Reported (m ∷ ms) n (inl e) = inl (ap c_string e ∙ c_string-c_string m)
c_string-Reported (m ∷ ms) n (inr r) = inr (c_string-Reported ms n r)

Reported-[] : (names : List Bytes) → Reported names []
Reported-[] [] = refl
Reported-[] (m ∷ ms) = inr (Reported-[] ms)

pub Reported-new : (names : List Bytes) (n : Bytes) → Reported (names ++ n ∷ []) (c_string n)
Reported-new [] n = inl refl
Reported-new (m ∷ ms) n = inr (Reported-new ms n)

Reported-more : (names : List Bytes) (x n : Bytes) → Reported names n → Reported (names ++ x ∷ []) n
Reported-more [] x n e = inr e
Reported-more (m ∷ ms) x n (inl e) = inl e
Reported-more (m ∷ ms) x n (inr r) = inr (Reported-more ms x n r)

pub AllValues-more :
    (names : List Bytes) (x : Bytes) (m : UnorderedMap ℕ Bytes)
    → AllValues (Reported names) m
    → AllValues (Reported (names ++ x ∷ [])) m
AllValues-more names x [] a = tt
AllValues-more names x ((k, v) ∷ m) (p, a) = (Reported-more names x v p, AllValues-more names x m a)

abbrev pub reported_files : List ChangeInfo → List Bytes
reported_files cs = map (λ c. c.file) cs

pub All-more :
    (names : List Bytes) (x : Bytes) (cs : List ChangeInfo)
    → All (Reported names) (reported_files cs)
    → All (Reported (names ++ x ∷ [])) (reported_files cs)
All-more names x [] a = tt
All-more names x (c ∷ cs) (p, a) = (Reported-more names x c.file p, All-more names x cs a)

All-push :
    (P : Bytes → Type 0) (cs : List ChangeInfo) (c : ChangeInfo)
    → All P (reported_files cs)
    → P c.file
    → All P (reported_files (cs ++ c ∷ []))
All-push P [] c a p = (p, tt)
All-push P (d ∷ cs) c (q, a) p = (q, All-push P cs c a p)

module _ (i : Inotify) (names : List Bytes) where
  -- The names that are kept and queued are those of tracked files.
  abbrev pub IsNamed : FileTracker i.Watches → Type 0
  IsNamed t =
      AllValues (Reported names) t.handle_to_file_name
      × All (Reported names) (reported_files t.change_info)
      × IsDistinct t.handle_to_file_name

  file_changed-Always :
      (t : FileTracker i.Watches) (wd : ℕ) (name : Bytes)
      → IsNamed t
      → Reported names name
      → Always IsNamed (file_changed i t wd name)
  unfolding file_changed
  file_changed-Always t wd name (v, q, d) r =
      bind-Always IsNamed (watch i t.watches (full_path i t name) in_modify) _ (λ w. (
        insert_new-AllValues (Reported names) w.0 (c_string name) (erase wd t.handle_to_file_name)
            (c_string-Reported names name r)
            (erase-AllValues (Reported names) wd t.handle_to_file_name v),
        All-push (Reported names) t.change_info _ q r,
        insert_new-IsDistinct w.0 (c_string name) (erase wd t.handle_to_file_name)
            (erase-IsDistinct wd t.handle_to_file_name d),
      ))

  directory_changed-IsNamed :
      (t : FileTracker i.Watches) (wd : ℕ) → IsNamed t → IsNamed (directory_changed i t wd)
  unfolding directory_changed
  directory_changed-IsNamed t wd (v, q, d) = elim (Option-cases (find wd t.tracked_directory)) [
    | inl e ↦ rw (directory_changed, e) (v, q, d)
    | inr (info, e) ↦
        rw (directory_changed, e)
          (v, All-push (Reported names) t.change_info _ q (Reported-[] names), d)
  ]

  handle_changed-Always :
      (t : FileTracker i.Watches) (wd : ℕ) → IsNamed t → Always IsNamed (handle_changed i t wd)
  unfolding handle_changed
  handle_changed-Always t wd n = elim (Option-cases (find wd t.handle_to_file_name)) [
    | inl e ↦ rw (Always, handle_changed, e) (directory_changed-IsNamed t wd n)
    | inr (name, e) ↦
        rw (Always, handle_changed, e)
          (file_changed-Always t wd name n
            (find-AllValues (Reported names) wd t.handle_to_file_name n.0 e))
  ]

  handle_event-Always :
      (t : FileTracker i.Watches) (e : InotifyEvent)
      → IsNamed t
      → Always IsNamed (handle_event i t e)
  unfolding handle_event
  handle_event-Always t e n = elim (Bool-cases (e.len == 0)) [
    | inl b ↦ simp b (handle_changed-Always t e.wd n)
    | inr b ↦ simp b n
  ]

  events-Always :
      (k pos count : ℕ) (buffer : Bytes) (t : FileTracker i.Watches)
      → IsNamed t
      → Always IsNamed (events i k pos count buffer t)
  unfolding events
  events-Always zero pos count buffer t n = tt
  events-Always (suc k) pos count buffer t n = elim (Bool-cases (ltb pos count)) [
    | inr b ↦ rw b n
    | inl b ↦ rw b (elim (Option-cases (event_at (drop pos buffer))) [
      | inl none_there ↦ rw none_there tt
      | inr (e, there) ↦ rw there (
          bind-Always_then IsNamed IsNamed (handle_event i t e) _ (handle_event-Always t e n)
            (λ t' n'. elim (Bool-cases (leb (2 ^ 31) (next_pos i e.len))) [
              | inl c ↦ rw c tt
              | inr c ↦ rw c (events-Always k (next_pos i e.len) count buffer t' n')
            ]))
    ])
  ]

  pub listen_round-Always :
      (k : ℕ) (r : Option Bytes) (buffer : Bytes) (t : FileTracker i.Watches)
      → IsNamed t
      → Always (λ s. IsNamed s.1) (listen_round i k r (buffer, t))
  unfolding listen_round
  listen_round-Always k none buffer t n = n
  listen_round-Always k (some bs) buffer t n = elim (Bool-cases (ltb (length bs) 1024)) [
    | inr b ↦ rw b tt
    | inl b ↦ rw b (
        bind-Always_then IsNamed (λ s. IsNamed s.1)
          (events i k 0 (length bs) (bs ++ drop (length bs) buffer) t) _
          (events-Always k 0 (length bs) (bs ++ drop (length bs) buffer) t n) (λ t' n'. n'))
  ]
