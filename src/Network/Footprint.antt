-- ===== src/Network/Footprint.antt =====
-- The addresses of a merged tree: no new ones, and none twice.
use guthi_core.Base.{Bool, true, false, ◌||◌, ◌≡◌, refl, inl, inr, arith, Bool-cases, equal}
use guthi_core.Network.{Ptr, is_file}
use guthi_core.Network.Tree.{
  Tree, node, Forest, nil, cons, name_of, type_of, snoc, has, hass, Apart, ApartForests, Distinct,
  DistinctAll, absorb, merge, merge_kids, merge_top,
}

pub hass-snoc : (p : Ptr) (ks : Forest) (x : Tree) → hass p (snoc ks x) ≡ (hass p ks || has p x)
hass-snoc p nil x = ground arith
hass-snoc p (cons k ks) x = ground (arith, hass-snoc p ks x)

pub DistinctAll-snoc :
    (ks : Forest) (x : Tree)
    → DistinctAll ks
    → Distinct x
    → ((p : Ptr) → hass p ks ≡ true → has p x ≡ false)
    → DistinctAll (snoc ks x)
DistinctAll-snoc nil x ds d apart = (d, λ p h. refl, tt)
DistinctAll-snoc (cons k ks) x ds d apart = (
  ds.0,
  λ p h. ground (arith, hass-snoc p ks x, ds.1 p, apart p),
  DistinctAll-snoc ks x ds.2 d λ p h. ground (arith, apart p),
)

-- `m` keeps inside the addresses of its argument and of `x`.
abbrev KeepsWithin : (Tree → Tree) → Tree → Type 0
KeepsWithin m x = (k : Tree) (p : Ptr) → has p k ≡ false → has p x ≡ false → has p (m k) ≡ false

absorb-outside :
    (keep : Bool) (m : Tree → Tree) (x : Tree) (ks : Forest) (p : Ptr)
    → KeepsWithin m x
    → hass p ks ≡ false
    → has p x ≡ false
    → hass p (absorb keep m x ks) ≡ false
unfolding absorb
absorb-outside keep m x nil p within a b = ground arith
absorb-outside keep m x (cons k ks) p within a b =
    ground (arith, within k p, hass-snoc p ks x, absorb-outside keep m x ks p within)

absorb-DistinctAll :
    (keep : Bool) (m : Tree → Tree) (x : Tree) (ks : Forest)
    → KeepsWithin m x
    → ((k : Tree) → Distinct k → Apart k x → Distinct (m k))
    → DistinctAll ks
    → Distinct x
    → ((p : Ptr) → hass p ks ≡ true → has p x ≡ false)
    → DistinctAll (absorb keep m x ks)
unfolding absorb
absorb-DistinctAll keep m x nil within distinct ds d apart = (d, λ p h. refl, tt)
absorb-DistinctAll keep m x (cons k ks) within distinct ds d apart =
    elim (Bool-cases (equal (name_of k) (name_of x))) [
      | inr other ↦ rw other (
        ds.0,
        λ p h. ground (arith, absorb-outside keep m x ks p within, ds.1 p, apart p),
        absorb-DistinctAll keep m x ks within distinct ds.2 d λ p h. ground (arith, apart p),
      )
      | inl same ↦ rw same (elim (Bool-cases keep) [
        | inl both ↦ rw both (
          ds.0,
          λ p h. ground (arith, hass-snoc p ks x, ds.1 p, apart p),
          DistinctAll-snoc ks x ds.2 d λ p h. ground (arith, apart p),
        )
        | inr merged ↦ rw merged (
          distinct k ds.0 (λ p h. ground (arith, apart p)),
          λ p h. ground (arith, within k p, ds.1 p, apart p),
          ds.2,
        )
      ])
    ]

mutual
  unfolding merge

  merge-KeepsWithin :
      (x t : Tree) (p : Ptr) → has p t ≡ false → has p x ≡ false → has p (merge t x) ≡ false
  merge-KeepsWithin (node b ty' net' nm' xs) (node a ty net nm ks) p h g =
      ground (arith, merge_kids-outside xs ks p)

  merge_kids-outside :
      (xs ks : Forest) (p : Ptr)
      → hass p ks ≡ false
      → hass p xs ≡ false
      → hass p (merge_kids ks xs) ≡ false
  merge_kids-outside nil ks p h g = h
  merge_kids-outside (cons x xs) ks p h g =
      merge_kids-outside xs (absorb (is_file (type_of x)) (λ k. merge k x) x ks) p
        (absorb-outside (is_file (type_of x)) (λ k. merge k x) x ks p
          (λ k q. merge-KeepsWithin x k q) h (ground arith))
        (ground arith)

mutual
  unfolding merge

  merge-Distinct_tree : (x t : Tree) → Distinct t → Distinct x → Apart t x → Distinct (merge t x)
  merge-Distinct_tree (node b ty' net' nm' xs) (node a ty net nm ks) d e apart = (
    merge_kids-outside xs ks a d.0 (ground (arith, apart a)),
    merge_kids-DistinctAll xs ks d.1 e.1 λ p h. ground (arith, apart p),
  )

  merge_kids-DistinctAll :
      (xs ks : Forest)
      → DistinctAll ks
      → DistinctAll xs
      → ApartForests ks xs
      → DistinctAll (merge_kids ks xs)
  merge_kids-DistinctAll nil ks d e apart = d
  merge_kids-DistinctAll (cons x xs) ks d e apart =
      merge_kids-DistinctAll xs (absorb (is_file (type_of x)) (λ k. merge k x) x ks)
        (absorb-DistinctAll (is_file (type_of x)) (λ k. merge k x) x ks
          (λ k q. merge-KeepsWithin x k q) (λ k dk ak. merge-Distinct_tree x k dk e.0 ak) d e.0
          (λ p h. ground (arith, apart p)))
        e.2
        (λ p h. ground (
          arith,
          absorb-outside (is_file (type_of x)) (λ k. merge k x) x ks p
              (λ k q. merge-KeepsWithin x k q),
          apart p,
          e.1 p,
        ))

-- What the merge of `x` into a forest keeps, for both readings of a name that is taken.
module _ (keep : Bool) (x : Tree) (ks : Forest) where
  pub outside-absorb :
      (p : Ptr)
      → hass p ks ≡ false
      → has p x ≡ false
      → hass p (absorb keep (λ k. merge k x) x ks) ≡ false
  outside-absorb p = absorb-outside keep (λ k. merge k x) x ks p (λ k q. merge-KeepsWithin x k q)

  pub absorb-merge-DistinctAll :
      DistinctAll ks
      → Distinct x
      → ((p : Ptr) → hass p ks ≡ true → has p x ≡ false)
      → DistinctAll (absorb keep (λ k. merge k x) x ks)
  absorb-merge-DistinctAll d e apart =
      absorb-DistinctAll keep (λ k. merge k x) x ks (λ k q. merge-KeepsWithin x k q)
        (λ k dk ak. merge-Distinct_tree x k dk e ak) d e apart

-- The merge of two trees that share no node has nodes of these only, each once.
pub merge-Distinct :
    (t x : Tree)
    → Distinct t
    → Distinct x
    → Apart t x
    → Distinct (merge t x)
      × ((p : Ptr) → has p t ≡ false → has p x ≡ false → has p (merge t x) ≡ false)
merge-Distinct t x d e apart = (merge-Distinct_tree x t d e apart, merge-KeepsWithin x t)

pub merge_top-DistinctAll :
    (xs ks : Forest)
    → DistinctAll ks
    → DistinctAll xs
    → ApartForests ks xs
    → DistinctAll (merge_top ks xs)
unfolding merge_top
merge_top-DistinctAll nil ks d e apart = d
merge_top-DistinctAll (cons x xs) ks d e apart =
    merge_top-DistinctAll xs (absorb false (λ k. merge k x) x ks)
      (absorb-merge-DistinctAll false x ks d e.0 λ p h. ground (arith, apart p)) e.2
      (λ p h. ground (arith, outside-absorb false x ks p, apart p, e.1 p))
