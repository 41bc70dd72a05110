-- ===== src/Network/Paths.antt =====
-- Which paths lead somewhere in a merged tree: those that do in one of the trees merged.
use guthi_core.Base.{
  ℕ, ◌≤◌, Bool, true, false, ◌&&◌, ◌||◌, ◌≡◌, refl, ◌∙◌, inl, inr, List, [], ◌∷◌, arith, Bool-cases,
  Bytes, equal, equal_iff,
}
use guthi_core.Network.{Ptr, directory, is_file, Store, merge_total}
use guthi_core.Base.Runs.{ok}
use guthi_core.Network.Refine.{depths}
use guthi_core.Network.Top.{merge_total-Holds}
use guthi_core.Network.Tree.{
  Tree, node, Forest, nil, cons, addr, addrs, type_of, name_of, kids, snoc, hass, Holds, HoldsAll,
  DistinctAll, absorb, merge, merge_kids, merge_top,
}

-- Whether the names lead from the forest to a node: the first to a tree, the rest on from there.
unfoldable pub leads : List Bytes → Forest → Bool
leads [] ts = true
leads (n ∷ ns) nil = false
leads (n ∷ ns) (cons (node a ty net nm ks) ts) = (equal nm n && leads ns ks) || leads (n ∷ ns) ts

abbrev Joins : List Bytes → Forest → Forest → Forest → Type 0
Joins ns us ks xs = leads ns us ≡ (leads ns ks || leads ns xs)

leads-cons :
    (n : Bytes) (ns : List Bytes) (t : Tree) (ts : Forest)
    → leads (n ∷ ns) (cons t ts) ≡ ((equal (name_of t) n && leads ns (kids t)) || leads (n ∷ ns) ts)
unfolding leads
leads-cons n ns (node a ty net nm ks) ts = refl

leads-snoc : (ns : List Bytes) (ks : Forest) (x : Tree) → Joins ns (snoc ks x) ks (cons x nil)
unfolding leads
leads-snoc [] ks x = refl
leads-snoc (n ∷ ns) nil x = refl
leads-snoc (n ∷ ns) (cons (node a ty net nm ks) ts) (node b ty' net' nm' xs) =
    ground (arith, leads-snoc (n ∷ ns) ts (node b ty' net' nm' xs))

leads-absorb :
    (keep : Bool) (m : Tree → Tree) (x : Tree) (ks : Forest) (ns : List Bytes)
    → ((k : Tree) (ps : List Bytes)
        → (name_of (m k) ≡ name_of k) × Joins ps (kids (m k)) (kids k) (kids x))
    → Joins ns (absorb keep m x ks) ks (cons x nil)
unfolding leads absorb
leads-absorb keep m x ks [] joins = refl
leads-absorb keep m x nil (n ∷ ns) joins = refl
leads-absorb keep m (node b ty' net' nm' xs) (cons (node a ty net nm ks) ts) (n ∷ ns) joins =
    elim (Bool-cases (equal nm nm')) [
      | inr other ↦
          rw other (ground (arith, leads-absorb keep m (node b ty' net' nm' xs) ts (n ∷ ns) joins))
      | inl same ↦ rw same (elim (Bool-cases keep) [
        | inl both ↦ rw both (ground (arith, leads-snoc (n ∷ ns) ts (node b ty' net' nm' xs)))
        | inr merged ↦
            let (name, below) = joins (node a ty net nm ks) ns in
            let names : nm ≡ nm' = (equal_iff nm nm').0 same in
            rw merged (
              rw (leads-cons n ns (m (node a ty net nm ks)) ts, name, below, ← names)
                (ground arith))
      ])
    ]

leads-nil : (ks : Forest) (ns : List Bytes) → Joins ns ks ks nil
unfolding leads
leads-nil ks [] = refl
leads-nil ks (n ∷ ns) = ground arith

leads-from_nil : (xs : Forest) (ns : List Bytes) → (leads ns nil || leads ns xs) ≡ leads ns xs
unfolding leads
leads-from_nil xs [] = refl
leads-from_nil xs (n ∷ ns) = refl

Joins-cons :
    (x : Tree) (xs ks us : Forest) (ns : List Bytes)
    → Joins ns us ks (cons x nil)
    → (leads ns us || leads ns xs) ≡ (leads ns ks || leads ns (cons x xs))
Joins-cons x xs ks us [] e = unfold leads in refl
Joins-cons x xs ks us (n ∷ ns) e =
    rw (e, leads-cons n ns x nil, leads-cons n ns x xs) (unfold leads in ground arith)

mutual
  unfolding merge

  leads-merge :
      (x t : Tree) (ns : List Bytes)
      → (name_of (merge t x) ≡ name_of t) × Joins ns (kids (merge t x)) (kids t) (kids x)
  leads-merge (node b ty' net' nm' xs) (node a ty net nm ks) ns = (refl, leads-merge_kids xs ks ns)

  leads-merge_kids : (xs ks : Forest) (ns : List Bytes) → Joins ns (merge_kids ks xs) ks xs
  leads-merge_kids nil ks ns = leads-nil ks ns
  leads-merge_kids (cons x xs) ks ns =
      leads-merge_kids xs (absorb (is_file (type_of x)) (λ k. merge k x) x ks) ns
      ∙ Joins-cons x xs ks _ ns
          (leads-absorb (is_file (type_of x)) (λ k. merge k x) x ks ns (λ k ps. leads-merge x k ps))

-- A path leads to a node of the merge exactly if it does in one of the two trees.
pub leads-merge_top : (xs ks : Forest) (ns : List Bytes) → Joins ns (merge_top ks xs) ks xs
unfolding merge_top
leads-merge_top nil ks ns = leads-nil ks ns
leads-merge_top (cons x xs) ks ns =
    leads-merge_top xs (absorb false (λ k. merge k x) x ks) ns
    ∙ Joins-cons x xs ks _ ns
        (leads-absorb false (λ k. merge k x) x ks ns (λ k ps. leads-merge x k ps))

-- `MergeTotalFileContent` gives one coherent view: for trees that share no node, given a fresh
-- address and fuel for the deepest tree, it returns a tree in which a path of names leads to a file
-- or folder exactly if it does from one of the trees merged.
pub merge_total-leads :
    (xs : Forest) (k : ℕ) (fresh : Ptr) (h : Store)
    → depths xs ≤ k
    → HoldsAll h xs
    → DistinctAll xs
    → hass fresh xs ≡ false
    → (g : Store) × (t : Tree) × (merge_total k fresh (addrs xs) h ≡ ok (addr t, g))
      × Holds g t
      × ((ns : List Bytes) → leads ns (kids t) ≡ leads ns xs)
merge_total-leads xs k fresh h le hxs ds new =
    let (g, done, held) = merge_total-Holds xs k fresh h le hxs ds new in
    (
      g,
      node fresh directory _ _ (merge_top nil xs),
      done,
      held,
      λ ns. leads-merge_top xs nil ns ∙ leads-from_nil xs ns,
    )
