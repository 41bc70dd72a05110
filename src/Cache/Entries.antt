-- ===== src/Cache/Entries.antt =====
-- `std::multimap` over strings, as src/filesystem/cache.cpp uses it: the entries in the order of an
-- iteration, and an iterator as the entries from its place on.
use guthi_core.Base.{
  Bool, false, not, ◌&&◌, ◌||◌, ◌≡◌, refl, List, [], ◌∷◌, ◌++◌, arith, if◌then◌else◌, All, Bytes,
  equal, less, less_asymm, not_less_trans, inl, inr, Bool-cases,
}

abbrev pub Multimap : Type 0 → Type 0
Multimap A = List (Bytes × A)

-- No key stands behind a greater one.
abbrev pub IsSorted : {A : Type 0} → Multimap A → Type 0
IsSorted [] = Unit {0}
IsSorted ((k, e) ∷ m) = All (λ p. less p.0 k ≡ false) m × IsSorted m

module _ {A : Type 0} where
  -- A new entry goes behind those of the same key.
  unfoldable pub insert : Bytes → A → Multimap A → Multimap A
  insert k e [] = (k, e) ∷ []
  insert k e ((j, f) ∷ m) = if less k j then (k, e) ∷ (j, f) ∷ m else (j, f) ∷ insert k e m

  -- `count(k) != 0`
  unfoldable pub contains : Bytes → Multimap A → Bool
  contains k [] = false
  contains k ((j, f) ∷ m) = equal j k || contains k m

  unfoldable pub lower_bound : Bytes → Multimap A → Multimap A
  lower_bound k [] = []
  lower_bound k ((j, f) ∷ m) = if less j k then lower_bound k m else (j, f) ∷ m

  -- The entries in front of `lower_bound(k)`.
  unfoldable pub before : Bytes → Multimap A → Multimap A
  before k [] = []
  before k ((j, f) ∷ m) = if less j k then (j, f) ∷ before k m else []

  abbrev pub any : (Bytes × A → Bool) → Multimap A → Bool
  any test [] = false
  any test (p ∷ m) = test p || any test m

  pub before-append-lower_bound : (k : Bytes) (m : Multimap A) → before k m ++ lower_bound k m ≡ m
  unfolding before lower_bound
  before-append-lower_bound k [] = refl
  before-append-lower_bound k ((j, f) ∷ m) = ground (arith, before-append-lower_bound k m)

  insert-All :
      (k j : Bytes) (e : A) (m : Multimap A)
      → less k j ≡ false
      → All (λ p. less p.0 j ≡ false) m
      → All (λ p. less p.0 j ≡ false) (insert k e m)
  unfolding insert
  insert-All k j e [] h all = (h, tt)
  insert-All k j e ((i, f) ∷ m) h all = elim (Bool-cases (less k i)) [
    | inl b ↦ rw b (h, all)
    | inr b ↦ rw b (all.0, insert-All k j e m h all.1)
  ]

  All-not_less :
      (k j : Bytes) (m : Multimap A)
      → less j k ≡ false
      → All (λ p. less p.0 j ≡ false) m
      → All (λ p. less p.0 k ≡ false) m
  All-not_less k j [] h all = tt
  All-not_less k j ((i, f) ∷ m) h all = (not_less_trans i j k all.0 h, All-not_less k j m h all.1)

  pub insert-IsSorted : (k : Bytes) (e : A) (m : Multimap A) → IsSorted m → IsSorted (insert k e m)
  unfolding insert
  insert-IsSorted k e [] s = (tt, tt)
  insert-IsSorted k e ((j, f) ∷ m) s = elim (Bool-cases (less k j)) [
    | inl b ↦ rw b ((less_asymm k j b, All-not_less k j m (less_asymm k j b) s.0), s)
    | inr b ↦ rw b (insert-All k j e m b s.0, insert-IsSorted k e m s.1)
  ]

  -- With the entries in order, the iteration from `lower_bound(k)` meets all keys that are not less.
  any-not-less :
      (k : Bytes) (test : A → Bool) (m : Multimap A)
      → All (λ p. less p.0 k ≡ false) m
      → any (λ p. not (less p.0 k) && test p.1) m ≡ any (λ p. test p.1) m
  any-not-less k test [] all = refl
  any-not-less k test ((j, f) ∷ m) all = rw (all.0, any-not-less k test m all.1)

  pub any-lower_bound :
      (k : Bytes) (test : A → Bool) (m : Multimap A)
      → IsSorted m
      → any (λ p. test p.1) (lower_bound k m) ≡ any (λ p. not (less p.0 k) && test p.1) m
  unfolding lower_bound
  any-lower_bound k test [] s = refl
  any-lower_bound k test ((j, f) ∷ m) s = elim (Bool-cases (less j k)) [
    | inl b ↦ rw b (any-lower_bound k test m s.1)
    | inr b ↦ rw (b, any-not-less k test m (All-not_less k j m b s.0))
  ]
