-- ===== src/WinTracker/Arrays.antt =====
-- The arrays of `ListenForChanges` in src/filesystem/file_track.cpp, which have an element for each
-- directory only until the next one is tracked.
use guthi_core.Base.{
  ℕ, zero, suc, ◌+◌, ◌%◌, ◌^◌, ◌<◌, ◌≤◌, ◌≡◌, refl, sym, ap, ◌∙◌, subst, inl, inr, Bool, true,
  false, ◌&&◌, List, [], ◌∷◌, arith, leb, ◌==◌, Bool-cases, Option-cases, length, take, drop,
  length-replicate, Bytes, c_string,
}
use guthi_core.Tracker.Decode.{Gives}
use guthi_core.Tracker.Maps.{nat_keyed, bytes_keyed, UnorderedMap, find}
use guthi_core.Tracker.Reports.{Always, bind-Always, bind-Always_then}
use guthi_core.Tracker.State.{
  Ended, ok, exited, aborted, fault, out_of_fuel, ◌>>=◌, DirectoryTrackInfo, find_last_of,
}
use guthi_core.WinTracker.Batches.{is_told, handle_name-is_told}
use guthi_core.WinTracker.Entries.{entry_at, handle_name, consume}
use guthi_core.WinTracker.Listen.{
  set_true, Phase, rearming, resetting, queueing, clear_reset, polling, finished, Listening, rearm,
  queue_reads, poll, listen_part,
}
use guthi_core.WinTracker.State.{Windows, WinTracker, track_in, track_file}

length-set_true : (j : ℕ) (bs : List Bool) → length (set_true j bs) ≡ length bs
length-set_true j [] = refl
length-set_true zero (b ∷ bs) = refl
length-set_true (suc j) (b ∷ bs) = ap suc (length-set_true j bs)

abbrev pub NotFault : {A : Type 0} → Ended A → Type 0
NotFault fault = ⊥
NotFault _ = Unit {0}

pub bind-NotFault :
    {A B : Type 0} (m : Ended A) (f : A → Ended B)
    → NotFault m
    → ((a : A) → NotFault (f a))
    → NotFault (m >>= f)
bind-NotFault (ok a) f n h = h a
bind-NotFault exited f n h = tt
bind-NotFault aborted f n h = tt
bind-NotFault fault f n h = n
bind-NotFault out_of_fuel f n h = tt

module _ (windows : Windows) where
  -- Where the thread will see that a reset is due, before it comes to the arrays.
  abbrev pub sees_reset : Phase → Bool
  sees_reset resetting = false
  sees_reset queueing = false
  sees_reset _ = true

  -- Unless it will, every directory has its elements.
  abbrev pub Fits : Listening windows.World → Type 0
  Fits s =
      (sees_reset s.phase && s.tracker.reset_tracking) ≡ false
      → length s.tracker.tracked_directory ≤ length s.completed

  -- The directories and the flag are as they were.
  abbrev Same : WinTracker windows.World → WinTracker windows.World → Type 0
  Same t t' = (t'.tracked_directory ≡ t.tracked_directory) × (t'.reset_tracking ≡ t.reset_tracking)

  handle_name-Same :
      (t : WinTracker windows.World) (h : ℕ) (info : DirectoryTrackInfo) (name : Bytes)
      → Same t (handle_name windows t h info name)
  handle_name-Same t h info name =
      rw (handle_name-is_told windows h info t name)
        (elim (Bool-cases (is_told windows h info t.files_tracked_within_directory name)) [
          | inl e ↦ rw e (refl, refl)
          | inr e ↦ rw e (refl, refl)
        ])

  consume-Same :
      (k consumed : ℕ) (buffer : Bytes) (h : ℕ) (info : DirectoryTrackInfo)
      (s t : WinTracker windows.World)
      → Same s t
      → Always (Same s) (consume windows k consumed buffer h info t)
  unfolding consume
  consume-Same zero consumed buffer h info s t same = tt
  consume-Same (suc k) consumed buffer h info s t (d, r) =
      elim (Option-cases (entry_at (drop consumed buffer))) [
        | inl none_there ↦ rw (Always, consume, none_there) tt
        | inr (e, there) ↦
            let name = windows.narrow e.wide_name in
            let (d', r') = handle_name-Same t h info name in
            rw (Always, consume, there)
              (elim (Bool-cases (e.next_entry_offset == 0)) [
                | inl b ↦ rw b (d' ∙ d, r' ∙ r)
                | inr b ↦ rw b (
                    consume-Same k ((consumed + e.next_entry_offset) % 2 ^ 32) buffer h info s
                      (handle_name windows t h info name) (d' ∙ d, r' ∙ r))
              ])
      ]

  -- So are they after a round of polling, and the arrays have their size.
  abbrev Polled :
      WinTracker windows.World → ℕ → WinTracker windows.World × List Bool × Bool → Type 0
  Polled s n r = Same s r.0 × (length r.1 ≡ n)

  poll-Polled :
      (k : ℕ) (ds : UnorderedMap ℕ DirectoryTrackInfo) (j : ℕ) (cs : List Bool) (b : Bool)
      (s t : WinTracker windows.World) (n : ℕ)
      → Same s t
      → length cs ≡ n
      → Always (Polled s n) (poll windows k ds j cs b t)
  unfolding poll
  poll-Polled k [] j cs b s t n same l = (same, l)
  poll-Polled k ((h, info) ∷ ds) j cs b s t n same l = elim (Bool-cases (leb (length cs) j)) [
    | inl beyond ↦ rw beyond tt
    | inr inside ↦ rw inside (elim (Option-cases (windows.finished_read t.world h j)) [
      | inl not_yet ↦ rw not_yet (poll-Polled k ds (suc j) cs b s t n same l)
      | inr ((buffer, w), done) ↦ rw done (
          bind-Always_then (Same s) (Polled s n)
            (consume windows k 0 buffer h info (record t { world = w })) _
            (consume-Same k 0 buffer h info s (record t { world = w }) same)
            (λ t' same'.
              poll-Polled k ds (suc j) (set_true j cs) true s t' n same'
                (length-set_true j cs ∙ l)))
    ])
  ]

  pub queue_reads-NotFault :
      (ds : UnorderedMap ℕ DirectoryTrackInfo) (cs : List Bool) (c : ℕ) (w : windows.World)
      → length ds ≤ length cs
      → NotFault (queue_reads windows ds cs c w)
  unfolding queue_reads
  queue_reads-NotFault [] cs c w l = tt
  queue_reads-NotFault ((h, info) ∷ ds) [] c w l = absurd (omega arith)
  queue_reads-NotFault ((h, info) ∷ ds) (false ∷ bs) c w l =
      queue_reads-NotFault ds bs (suc c) w (omega arith)
  queue_reads-NotFault ((h, info) ∷ ds) (true ∷ bs) c w l =
      elim (Option-cases (windows.start_read w h c)) [
        | inl e ↦ rw e tt
        | inr (w', e) ↦ rw e (queue_reads-NotFault ds bs (suc c) w' (omega arith))
      ]

  pub queue_reads-not-Gives :
      (ds : UnorderedMap ℕ DirectoryTrackInfo) (cs : List Bool) (c : ℕ) (w : windows.World)
      → length cs < length ds
      → ¬ Gives (queue_reads windows ds cs c w)
  unfolding queue_reads
  queue_reads-not-Gives [] cs c w l = absurd (omega arith)
  queue_reads-not-Gives ((h, info) ∷ ds) [] c w l = λ g. g
  queue_reads-not-Gives ((h, info) ∷ ds) (false ∷ bs) c w l =
      queue_reads-not-Gives ds bs (suc c) w (omega arith)
  queue_reads-not-Gives ((h, info) ∷ ds) (true ∷ bs) c w l =
      elim (Option-cases (windows.start_read w h c)) [
        | inl e ↦ rw e (λ g. g)
        | inr (w', e) ↦ rw e (queue_reads-not-Gives ds bs (suc c) w' (omega arith))
      ]

  pub listen_part-Fits :
      (k : ℕ) (t : WinTracker windows.World) (cs : List Bool) (p : Phase)
      → Fits (record { tracker = t; completed = cs; phase = p })
      → Always Fits (listen_part windows k (record { tracker = t; completed = cs; phase = p }))
  unfolding listen_part rearm clear_reset
  listen_part-Fits k t cs finished fits = fits
  listen_part-Fits k t cs rearming fits = elim (Bool-cases t.stop_listening) [
    | inl e ↦ rw e fits
    | inr e ↦ simp e (elim (Bool-cases t.reset_tracking) [
      | inl f ↦ simp f (λ _. omega (arith, length-replicate (length t.tracked_directory) true))
      | inr f ↦ simp f (λ _. fits f)
    ])
  ]
  listen_part-Fits k t cs resetting fits = λ _. fits refl
  listen_part-Fits k t cs queueing fits =
      bind-Always Fits (queue_reads windows t.tracked_directory cs 0 t.world) _ (λ w _. fits refl)
  listen_part-Fits k t cs polling fits = elim (Bool-cases t.stop_listening) [
    | inl e ↦ rw e fits
    | inr e ↦ simp e (elim (Bool-cases t.reset_tracking) [
      | inl f ↦ simp f (λ e. absurd (cc e))
      | inr f ↦ simp f (
          bind-Always_then (Polled t (length cs)) Fits
            (poll windows k t.tracked_directory 0 cs false t) _
            (poll-Polled k t.tracked_directory 0 cs false t t (length cs) (refl, refl) refl)
            (λ r ((d, _), l) _.
              subst (λ ds. length ds ≤ length r.1) (sym d) (omega (arith, fits f))))
    ])
  ]

  pub track_file-reset :
      (t : WinTracker windows.World) (name : Bytes)
      → Always (λ t'. t'.reset_tracking ≡ true) (track_file windows t name)
  unfolding track_file track_in
  track_file-reset t name =
      let path = windows.full_path t.world (c_string name) in
      elim (Option-cases (find_last_of 92 path)) [
        | inl e ↦ rw (Always, track_file, e) tt
        | inr (p, e) ↦
            rw (Always, track_file, e, track_in)
              (elim (Option-cases (find (take p path) t.name_to_handle)) [
                | inr (h, known) ↦ rw known refl
                | inl new ↦
                    rw new
                      (elim (Option-cases
                        (windows.open_directory t.world (c_string (take p path)))) [
                          | inl f ↦ rw f tt
                          | inr (r, f) ↦ rw f refl
                        ])
              ])
      ]
