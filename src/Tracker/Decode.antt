-- ===== src/Tracker/Decode.antt =====
-- The events of the kernel as bytes, and what the inner loop of `ListenForChanges` makes of them.
use guthi_core.Base.{
  ℕ, zero, suc, ◌+◌, ◌-◌, ◌/◌, ◌%◌, ◌^◌, ◌<◌, ◌≤◌, ◌≡◌, ◌≢◌, refl, sym, ◌∙◌, subst, true, false,
  some, [], ◌∷◌, ◌++◌, arith, ltb, leb, length, drop, Bytes,
}
use guthi_core.Tracker.Listen.{InotifyEvent, word, event_at, handle_event, next_pos, events}
use guthi_core.Tracker.State.{
  Inotify, Ended, ok, exited, aborted, fault, out_of_fuel, ◌>>=◌, FileTracker,
}

-- The four bytes of a word, the lowest first.
abbrev pub word_bytes : ℕ → Bytes
word_bytes n = n % 256 ∷ (n / 256) % 256 ∷ (n / 65536) % 256 ∷ (n / 16777216) % 256 ∷ []

-- An event as the kernel writes it, a name of `len` bytes behind it.
abbrev pub encoded : ℕ → ℕ → ℕ → Bytes → Bytes
encoded wd mask cookie name =
    word_bytes wd ++ word_bytes mask ++ word_bytes cookie ++ word_bytes (length name) ++ name

pub word-word_bytes :
    (n : ℕ)
    → n < 2 ^ 32
    → word (n % 256) ((n / 256) % 256) ((n / 65536) % 256) ((n / 16777216) % 256) ≡ n
word-word_bytes n h = omega arith

event_at-encoded :
    (wd mask cookie : ℕ) (name rest : Bytes)
    → wd < 2 ^ 32
    → length name < 2 ^ 32
    → event_at (encoded wd mask cookie name ++ rest) ≡ some (record { wd = wd; len = length name })
unfolding event_at
event_at-encoded wd mask cookie name rest h k =
    rw (word-word_bytes wd h, word-word_bytes (length name) k) refl

bind-ok : {A : Type 0} (m : Ended A) (f : A → Ended A) → ((a : A) → f a ≡ ok a) → (m >>= f) ≡ m
bind-ok (ok a) f h = h a
bind-ok exited f h = refl
bind-ok aborted f h = refl
bind-ok fault f h = refl
bind-ok out_of_fuel f h = refl

abbrev pub Gives : {A : Type 0} → Ended A → Type 0
Gives (ok a) = Unit {0}
Gives _ = ⊥

pub bind-not-Gives :
    {A : Type 0} (m : Ended A) (f : A → Ended A) → ((a : A) → ¬ Gives (f a)) → ¬ Gives (m >>= f)
bind-not-Gives (ok a) f h = h a
bind-not-Gives exited f h = λ g. g
bind-not-Gives aborted f h = λ g. g
bind-not-Gives fault f h = λ g. g
bind-not-Gives out_of_fuel f h = λ g. g

module _ (i : Inotify) where
  -- A round of the inner loop.
  pub events-round :
      (k pos n : ℕ) (buffer : Bytes) (t : FileTracker i.Watches) {e : InotifyEvent}
      → pos < n
      → event_at (drop pos buffer) ≡ some e
      → e.len < 2 ^ 31 - 16
      → events i (suc k) pos n buffer t
        ≡ (handle_event i t e >>= λ t'. events i k (16 + e.len) n buffer t')
  unfolding events
  events-round k pos n buffer t {e} h at l =
      let inside : ltb pos n ≡ true = ground arith in
      let small : leb (2 ^ 31) (next_pos i e.len) ≡ false = ground arith in
      let next : next_pos i e.len ≡ 16 + e.len = omega arith in rw (inside, at, small, next) refl

  events-end :
      (k pos n : ℕ) (buffer : Bytes) (t : FileTracker i.Watches)
      → n ≤ pos
      → events i (suc k) pos n buffer t ≡ ok t
  unfolding events
  events-end k pos n buffer t h = ground arith

  -- A read that gives one event has it handled once, whatever stands behind it in the buffer, and
  -- the loop over the events of the read ends: two rounds are enough.
  pub events-encoded :
      (t : FileTracker i.Watches) (k wd mask cookie : ℕ) (name rest : Bytes)
      → wd < 2 ^ 32
      → length name < 2 ^ 31 - 16
      → events i (suc (suc k)) 0 (16 + length name) (encoded wd mask cookie name ++ rest) t
        ≡ handle_event i t (record { wd = wd; len = length name })
  events-encoded t k wd mask cookie name rest h l =
      let n = 16 + length name in
      let buffer = encoded wd mask cookie name ++ rest in
      events-round (suc k) 0 n buffer t (omega arith)
        (event_at-encoded wd mask cookie name rest h (omega arith)) l
      ∙ bind-ok (handle_event i t (record { wd = wd; len = length name }))
          (λ t'. events i (suc k) n n buffer t') (λ t'. events-end k n n buffer t' (omega arith))

  -- Rounds that go on at an event without a name at 16 never give a result.
  stuck_at_16 :
      (k n : ℕ) (buffer : Bytes) (t : FileTracker i.Watches) {e : InotifyEvent}
      → 16 < n
      → event_at (drop 16 buffer) ≡ some e
      → e.len ≡ 0
      → ¬ Gives (events i k 16 n buffer t)
  unfolding events
  stuck_at_16 zero n buffer t h at l = λ g. g
  stuck_at_16 (suc k) n buffer t {e} h at l =
      let again : (16 + e.len) ≡ 16 = omega arith in
      rw (events-round k 16 n buffer t h at (omega arith), again)
        (bind-not-Gives (handle_event i t e) _ (λ t'. stuck_at_16 k n buffer t' h at l))

  -- If a read gives two events without a name, or more, the loop over the events of the read never
  -- ends with a result, whatever the number of rounds: it comes back to the second event.
  pub events-two :
      (t t' : FileTracker i.Watches) (k n wd mask cookie wd' mask' cookie' : ℕ) (rest : Bytes)
      → wd < 2 ^ 32
      → wd' < 2 ^ 32
      → 32 ≤ n
      → events i k 0 n (encoded wd mask cookie [] ++ encoded wd' mask' cookie' [] ++ rest) t ≢ ok t'
  unfolding events
  events-two t t' zero n wd mask cookie wd' mask' cookie' rest h h' l = λ g. subst Gives (sym g) tt
  events-two t t' (suc k) n wd mask cookie wd' mask' cookie' rest h h' l =
      let second = encoded wd' mask' cookie' [] ++ rest in
      let buffer = encoded wd mask cookie [] ++ second in
      let at = event_at-encoded wd' mask' cookie' [] rest h' (omega arith) in
      let never : ¬ Gives (events i (suc k) 0 n buffer t) =
        rw
          (events-round k 0 n buffer t (omega arith)
            (event_at-encoded wd mask cookie [] second h (omega arith)) (omega arith))
          (bind-not-Gives (handle_event i t (record { wd = wd; len = 0 })) _
            (λ s. stuck_at_16 k n buffer s (omega arith) at refl)) in
      λ g. never (subst Gives (sym g) tt)
