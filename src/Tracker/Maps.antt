-- ===== src/Tracker/Maps.antt =====
-- `std::unordered_map`, as src/filesystem/file_track.hpp uses it: an entry for each key at most.
use guthi_core.Base.{
  ℕ, ◌≡◌, ◌↔◌, refl, sym, inl, inr, Bool, true, Option, none, some, List, [], ◌∷◌, ◌==◌, ==_iff,
  if◌then◌else◌, Bool-cases, Bytes, equal, equal_iff, subst, Option-cases, some-injective,
  some-ne-none,
}

-- The equality of keys.
pub record Keyed (K : Type 0) : Type 0 where
  pub same : K → K → Bool
  pub same_iff : (a b : K) → (same a b ≡ true) ↔ (a ≡ b)

instance abbrev pub nat_keyed : Keyed ℕ
nat_keyed = record { same = ◌==◌; same_iff = ==_iff }

instance abbrev pub bytes_keyed : Keyed Bytes
bytes_keyed = record { same = equal; same_iff = equal_iff }

abbrev pub UnorderedMap : Type 0 → Type 0 → Type 0
UnorderedMap K V = List (K × V)

module _ {K : Type 0} ⦃e : Keyed K⦄ where
  pub same_refl : (k : K) → e.same k k ≡ true
  same_refl k = (e.same_iff k k).1 refl

module _ {K V : Type 0} ⦃e : Keyed K⦄ where
  unfoldable pub find : K → UnorderedMap K V → Option V
  find k [] = none
  find k ((j, v) ∷ m) = if e.same j k then some v else find k m

  -- `insert` leaves the map alone if it has the key.
  unfoldable pub insert_new : K → V → UnorderedMap K V → UnorderedMap K V
  unfolding find
  insert_new k v m = elim (find k m) [ none ↦ (k, v) ∷ m | some _ ↦ m ]

  -- `erase` of the entry of a key.
  unfoldable pub erase : K → UnorderedMap K V → UnorderedMap K V
  erase k [] = []
  erase k ((j, v) ∷ m) = if e.same j k then m else (j, v) ∷ erase k m

  pub find-insert_new :
      (k : K) (v : V) (m : UnorderedMap K V) → find k m ≡ none → find k (insert_new k v m) ≡ some v
  unfolding find insert_new
  find-insert_new k v m h = rw (h, find, same_refl k) refl

  -- Every value of the map satisfies `P`.
  abbrev pub AllValues : (P : V → Type 0) → UnorderedMap K V → Type 0
  AllValues P [] = Unit {0}
  AllValues P ((k, v) ∷ m) = P v × AllValues P m

  pub find-AllValues :
      (P : V → Type 0) (k : K) (m : UnorderedMap K V) {v : V}
      → AllValues P m
      → find k m ≡ some v
      → P v
  unfolding find
  find-AllValues P k [] a = λ h. absurd (some-ne-none _ (sym h))
  find-AllValues P k ((j, w) ∷ m) {v} (p, a) = elim (Bool-cases (e.same j k)) [
    | inl b ↦ rw b (λ h. subst P (some-injective w v h) p)
    | inr b ↦ rw b (λ h. find-AllValues P k m a h)
  ]

  pub insert_new-AllValues :
      (P : V → Type 0) (k : K) (v : V) (m : UnorderedMap K V)
      → P v
      → AllValues P m
      → AllValues P (insert_new k v m)
  unfolding insert_new
  insert_new-AllValues P k v m p a = elim (Option-cases (find k m)) [
    | inl h ↦ rw (AllValues, insert_new, h) (p, a)
    | inr (w, h) ↦ rw (AllValues, insert_new, h) a
  ]

  pub erase-AllValues :
      (P : V → Type 0) (k : K) (m : UnorderedMap K V) → AllValues P m → AllValues P (erase k m)
  unfolding erase
  erase-AllValues P k [] a = tt
  erase-AllValues P k ((j, w) ∷ m) (p, a) = elim (Bool-cases (e.same j k)) [
    | inl b ↦ rw b a
    | inr b ↦ rw b (p, erase-AllValues P k m a)
  ]

  -- No key has two entries.
  abbrev pub IsDistinct : UnorderedMap K V → Type 0
  IsDistinct [] = Unit {0}
  IsDistinct ((k, v) ∷ m) = (find k m ≡ none) × IsDistinct m

  pub find-erase-none :
      (j k : K) (m : UnorderedMap K V) → find j m ≡ none → find j (erase k m) ≡ none
  unfolding find erase
  find-erase-none j k [] = λ h. refl
  find-erase-none j k ((i, v) ∷ m) = elim (Bool-cases (e.same i j)) [
    | inl b ↦ rw b (λ h. absurd (some-ne-none _ h))
    | inr b ↦ rw b (elim (Bool-cases (e.same i k)) [
      | inl c ↦ rw c (λ h. h)
      | inr c ↦ rw (c, b) (find-erase-none j k m)
    ])
  ]

  pub find-erase : (k : K) (m : UnorderedMap K V) → IsDistinct m → find k (erase k m) ≡ none
  unfolding find erase
  find-erase k [] d = refl
  find-erase k ((j, v) ∷ m) (new, d) = elim (Bool-cases (e.same j k)) [
    | inl b ↦ rw b (subst (λ i. find i m ≡ none) ((e.same_iff j k).0 b) new)
    | inr b ↦ rw (b, find, b) (find-erase k m d)
  ]

  pub insert_new-IsDistinct :
      (k : K) (v : V) (m : UnorderedMap K V) → IsDistinct m → IsDistinct (insert_new k v m)
  unfolding insert_new
  insert_new-IsDistinct k v m d = elim (Option-cases (find k m)) [
    | inl h ↦ rw (IsDistinct, insert_new, h) (h, d)
    | inr (w, h) ↦ rw (IsDistinct, insert_new, h) d
  ]

  pub erase-IsDistinct : (k : K) (m : UnorderedMap K V) → IsDistinct m → IsDistinct (erase k m)
  unfolding erase
  erase-IsDistinct k [] d = tt
  erase-IsDistinct k ((j, v) ∷ m) (new, d) = elim (Bool-cases (e.same j k)) [
    | inl b ↦ rw b d
    | inr b ↦ rw b (find-erase-none j k m new, erase-IsDistinct k m d)
  ]
