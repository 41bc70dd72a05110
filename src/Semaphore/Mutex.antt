-- ===== src/Semaphore/Mutex.antt =====
-- What processes rely on when they lock and unlock the semaphore of src/shared_memory/semaphore.hpp:
-- an interface that both implementations fill, and what follows for processes that use it.
use guthi_core.Base.{
  ℕ, ◌+◌, ◌≤◌, ◌≡◌, refl, sym, ap, ◌∙◌, subst, Bool, true, false, Option, none, some, List, [], ◌∷◌,
  ◌++◌, arith, length, length-append, some-injective, some-ne-none, if◌then◌else◌, ◌⊎◌, inl, inr,
}

-- The state of the system, and a process's calls. `lock` gives none while the caller waits, and else
-- whether it has taken the semaphore; `join` is how a process comes to the semaphore.
pub record Mutex (W : Type 0) : Type 0 where
  pub value : W → ℕ
  pub lock : ℕ → Bool → W → Option (Bool × W)
  pub unlock : ℕ → W → W
  pub join : ℕ → W → W
  pub lock_free :
      (p : ℕ) (block : Bool) (w : W)
      → value w ≡ 1
      → (w' : W) × (lock p block w ≡ some (true, w')) × (value w' ≡ 0)
  pub lock_taken :
      (p : ℕ) (w : W)
      → value w ≡ 0
      → (w' : W) × (lock p false w ≡ some (false, w')) × (value w' ≡ 0)
  pub lock_waits : (p : ℕ) (w : W) → value w ≡ 0 → lock p true w ≡ none
  pub unlock_taken : (p : ℕ) (w : W) → value w ≡ 0 → value (unlock p w) ≡ 1
  pub join_keeps : (p : ℕ) (w : W) → value w ≤ 1 → value (join p w) ≡ value w

-- The system, and the processes that hold the semaphore.
pub record Users (W : Type 0) : Type 0 where
  pub world : W
  pub inside : List ℕ

module _ {W : Type 0} (m : Mutex W) where
  -- What processes can come to that only unlock what they hold.
  pub data Reached : Users W → Type 0 where
    created : {w : W} → m.value w ≡ 1 → Reached (record { world = w; inside = [] })
    joins : {s : Users W} → Reached s → (p : ℕ) → Reached (record s { world = m.join p s.world })
    locks :
        {s : Users W} {w' : W}
        → Reached s
        → (p : ℕ) (block : Bool) → m.lock p block s.world ≡ some (true, w')
        → Reached (record { world = w'; inside = p ∷ s.inside })
    is_refused :
        {s : Users W} {w' : W}
        → Reached s
        → (p : ℕ) (block : Bool) → m.lock p block s.world ≡ some (false, w')
        → Reached (record s { world = w' })
    unlocks :
        {w : W} (before after : List ℕ) (p : ℕ)
        → Reached (record { world = w; inside = before ++ p ∷ after })
        → Reached (record { world = m.unlock p w; inside = before ++ after })

  -- The semaphore counts one, less those inside.
  abbrev Counts : Users W → Type 0
  Counts s = m.value s.world + length s.inside ≡ 1

  free_or_taken : (w : W) (n : ℕ) → m.value w + n ≡ 1 → (m.value w ≡ 1) ⊎ (m.value w ≡ 0)
  free_or_taken w n c = omega arith

  abbrev after_lock : Users W → ℕ → Bool × W → Users W
  after_lock s p (b, w) = record { world = w; inside = if b then p ∷ s.inside else s.inside }

  lock_free-Counts :
      (s : Users W) (w' : W) (p : ℕ) (block b : Bool)
      → Counts s
      → m.value s.world ≡ 1
      → m.lock p block s.world ≡ some (b, w')
      → Counts (after_lock s p (b, w'))
  lock_free-Counts s w' p block b c free e =
      let (w'', e', none_left) = m.lock_free p block s.world free in
      subst (λ r. Counts (after_lock s p r)) (some-injective (true, w'') (b, w') (sym e' ∙ e))
        (omega arith)

  lock_taken-Counts :
      (s : Users W) (w' : W) (p : ℕ) (block b : Bool)
      → Counts s
      → m.value s.world ≡ 0
      → m.lock p block s.world ≡ some (b, w')
      → Counts (after_lock s p (b, w'))
  lock_taken-Counts s w' p true b c taken e =
      absurd (some-ne-none (b, w') (sym e ∙ m.lock_waits p s.world taken))
  lock_taken-Counts s w' p false b c taken e =
      let (w'', e', still) = m.lock_taken p s.world taken in
      subst (λ r. Counts (after_lock s p r)) (some-injective (false, w'') (b, w') (sym e' ∙ e))
        (omega arith)

  lock-Counts :
      (s : Users W) (w' : W) (p : ℕ) (block b : Bool)
      → Counts s
      → m.lock p block s.world ≡ some (b, w')
      → Counts (after_lock s p (b, w'))
  lock-Counts s w' p block b c e = elim (free_or_taken s.world (length s.inside) c) [
    | inl free ↦ lock_free-Counts s w' p block b c free e
    | inr taken ↦ lock_taken-Counts s w' p block b c taken e
  ]

  pub Reached-Counts : {s : Users W} → Reached s → Counts s
  Reached-Counts (created free) = omega arith
  Reached-Counts (joins {s} r p) =
      let counts = Reached-Counts r in omega (arith, m.join_keeps p s.world (omega arith))
  Reached-Counts (locks {s} {w'} r p block e) = lock-Counts s w' p block true (Reached-Counts r) e
  Reached-Counts (is_refused {s} {w'} r p block e) =
      lock-Counts s w' p block false (Reached-Counts r) e
  Reached-Counts (unlocks {w} before after p r) =
      let counts = Reached-Counts r in
      let size = length-append before (p ∷ after) in
      let size' = length-append before after in
      let given = m.unlock_taken p w (omega arith) in omega arith

  -- No two processes hold the semaphore.
  pub Reached-one_inside : {s : Users W} → Reached s → length s.inside ≤ 1
  Reached-one_inside {s} r = omega (arith, Reached-Counts r)

  -- If no process holds the semaphore, the next that locks it takes it at once.
  pub Reached-lock_free :
      {s : Users W}
      → Reached s
      → s.inside ≡ []
      → (p : ℕ) (block : Bool)
      → (w : W) × (m.lock p block s.world ≡ some (true, w))
        × Reached (record { world = w; inside = p ∷ [] })
  Reached-lock_free {s} r nobody p block =
      let counts = Reached-Counts r in
      let size : length s.inside ≡ 0 = ap length nobody in
      let (w, e, _) = m.lock_free p block s.world (omega arith) in
      (w, e, subst (λ l. Reached (record { world = w; inside = p ∷ l })) nobody (locks r p block e))

  -- While a process holds it, another waits or is refused, as it asks, until it is unlocked: then the
  -- other takes it at once.
  pub Reached-lock_taken :
      {s : Users W} {p : ℕ}
      → Reached s
      → s.inside ≡ p ∷ []
      → (q : ℕ)
      → (m.lock q true s.world ≡ none)
        × ((w : W) × (m.lock q false s.world ≡ some (false, w)))
        × ((w : W) × (m.lock q true (m.unlock p s.world) ≡ some (true, w))
            × Reached (record { world = w; inside = q ∷ [] }))
  Reached-lock_taken {s} {p} r one q =
      let counts = Reached-Counts r in
      let size : length s.inside ≡ 1 = ap length one in
      let taken : m.value s.world ≡ 0 = omega arith in
      let (w, e, _) = m.lock_taken q s.world taken in
      let left : Reached (record { world = m.unlock p s.world; inside = [] }) =
        unlocks [] [] p (subst (λ l. Reached (record { world = s.world; inside = l })) one r) in
      (m.lock_waits q s.world taken, (w, e), Reached-lock_free left refl q true)
