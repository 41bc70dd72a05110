-- ===== src/Network/Top.antt =====
-- `AddAsChildDirectory`, `MergeTotalFileContent` and `MergeDiff` of src/filesystem/network_fs.hpp:
-- a directory per node of the network, merged one after the other under a root.
use guthi_core.Base.{
  ℕ, ◌≤◌, true, false, ◌≡◌, refl, ◌∙◌, inl, inr, Option, some, List, [], ◌∷◌, arith, Option-cases,
  Bytes,
}
use guthi_core.Network.Frame.{HoldsAll-frame, load-eq-ok, address, find_named-find, absorb-snoc}
use guthi_core.Network.Merge.{
  LeavesAll, merge_single-Leaves, next-Distinct, next-has, next-ApartAll, next-HoldsAll,
}
use guthi_core.Base.Runs.{ok}
use guthi_core.Network.Refine.{depth, depths, Leaves, push_back-Leaves, merge-Leaves, child_facts}
use guthi_core.Network.{
  Ptr, FileType, directory, NetworkNode, Store, write, mem, find_named, add_child,
  add_as_child_directory, merge_total, merge_diff, top_name,
}
use guthi_core.Network.Tree.{
  Tree, node, Forest, nil, cons, addr, name_of, addrs, content, hass, Holds, HoldsAll, Apart,
  ApartAll, Distinct, DistinctAll, find, absorb, merge, merge_top,
}

module _ (h : Store) (a : Ptr) (ty : FileType) (net : NetworkNode) (nm : Bytes) (ks : Forest) where
  add_child-Leaves :
      (x : Tree) (k : ℕ)
      → depth x ≤ k
      → Holds h (node a ty net nm ks)
      → Holds h x
      → Distinct (node a ty net nm ks)
      → Distinct x
      → Apart (node a ty net nm ks) x
      → Leaves h
          (node a ty net nm ks)
          x
          (node a ty net nm (absorb false (λ t. merge t x) x ks))
          (add_child k a (addr x) h (address (find (name_of x) ks)))
  unfolding add_child mem
  add_child-Leaves x k le held hx d dx apart = elim (Option-cases (find (name_of x) ks)) [
    | inl absent ↦
        rw (absent, absorb-snoc false (λ t. merge t x) x ks absent)
          (push_back-Leaves h [] a ty net nm ks x held hx d dx apart (λ p i. cc))
    | inr (c, found) ↦
        let (hc, dc, ac, _) = child_facts h [] a ty net nm ks x held hx d dx apart found in
        rw found (
          merge-Leaves h [] a ty net nm ks x held hx d dx apart _ found
            (merge_single-Leaves c x k [] h le hc hx dc dx ac (λ p i. cc) (λ p i. cc)))
  ]

  add-cons :
      (k : ℕ) (x : Ptr) (xs : List Ptr) {found : Option Ptr} {g : Store}
      → h a ≡ some (content ty net nm ks)
      → find_named h x (addrs ks) ≡ ok found
      → add_child k a x h found ≡ ok g
      → add_as_child_directory k a (x ∷ xs) h ≡ add_as_child_directory k a xs g
  unfolding add_as_child_directory
  add-cons k x xs held searched done = rw (load-eq-ok h a held, searched, done)

add-nil : (k : ℕ) (a : Ptr) (h : Store) → add_as_child_directory k a [] h ≡ ok h
unfolding add_as_child_directory
add-nil k a h = refl

-- `AddAsChildDirectory` for trees that share no node with one another or with the root, with fuel
-- for the deepest: the call returns, the store then holds the root with all of them merged into its
-- children, and it has changed at addresses of these trees only.
pub add_as_child_directory-Leaves :
    (xs : Forest) (k : ℕ) (a : Ptr) (ty : FileType) (net : NetworkNode) (nm : Bytes) (ks : Forest)
    (h : Store)
    → depths xs ≤ k
    → Holds h (node a ty net nm ks)
    → HoldsAll h xs
    → Distinct (node a ty net nm ks)
    → DistinctAll xs
    → ApartAll (node a ty net nm ks) xs
    → LeavesAll h
        (node a ty net nm ks)
        xs
        (node a ty net nm (merge_top ks xs))
        (add_as_child_directory k a (addrs xs) h)
unfolding depth merge_top
add_as_child_directory-Leaves nil k a ty net nm ks h le held hxs d ds apart =
    (h, add-nil k a h, held, λ p i j. refl)
add_as_child_directory-Leaves (cons x xs) k a ty net nm ks h le held hxs d ds apart =
    let us = absorb false (λ t. merge t x) x ks in
    let ap_x : Apart (node a ty net nm ks) x = λ p i. ground (arith, apart p) in
    let (g, done, held', same) =
      add_child-Leaves h a ty net nm ks x k (omega arith) held hxs.0 d ds.0 ap_x in
    let (g', done', held'', same') =
      add_as_child_directory-Leaves xs k a ty net nm us g (omega arith) held'
        (next-HoldsAll h g false a ty net nm ks x xs d ds apart same hxs.1)
        (next-Distinct h g false a ty net nm ks x xs d ds apart same) ds.2
        (next-ApartAll h g false a ty net nm ks x xs d ds apart same) in
    (
      g',
      add-cons h a ty net nm ks k (addr x) (addrs xs) held.0 (find_named-find h ks x held.1 hxs.0)
            done
          ∙ done',
      held'',
      λ p i j.
          same' p (next-has h g false a ty net nm ks x xs d ds apart same p i (ground arith))
            (ground arith)
          ∙ same p i (ground arith),
    )

-- `MergeTotalFileContent` for trees that share no node, given a fresh address and fuel for the
-- deepest tree: the call returns that address, which then holds a directory "Guthi File System"
-- with all the trees merged.
pub merge_total-Holds :
    (xs : Forest) (k : ℕ) (fresh : Ptr) (h : Store)
    → depths xs ≤ k
    → HoldsAll h xs
    → DistinctAll xs
    → hass fresh xs ≡ false
    → (g : Store) × (merge_total k fresh (addrs xs) h ≡ ok (fresh, g))
      × Holds g
          (node fresh directory (record { ipv4 = 0 ∷ 0 ∷ 0 ∷ 0 ∷ [] }) top_name (merge_top nil xs))
unfolding merge_total write
merge_total-Holds xs k fresh h le hxs ds new =
    let net : NetworkNode = record { ipv4 = 0 ∷ 0 ∷ 0 ∷ 0 ∷ [] } in
    let h' = write h fresh (content directory net top_name nil) in
    let (g, done, held, _) =
      add_as_child_directory-Leaves xs k fresh directory net top_name nil h' le (ground arith, tt)
        (HoldsAll-frame xs hxs λ p i. ground arith) (refl, tt) ds (λ p i. ground arith) in
    (g, rw done, held)

-- `MergeDiff` is the merge of one tree into the root of the global file system: for a tree that
-- shares no node with the root, and with fuel for its depth, it returns true, and the store then
-- holds the root with the tree merged into its children.
pub merge_diff-Holds :
    (x : Tree) (k : ℕ) (a : Ptr) (ty : FileType) (net : NetworkNode) (nm : Bytes) (ks : Forest)
    (h : Store)
    → depth x ≤ k
    → Holds h (node a ty net nm ks)
    → Holds h x
    → Distinct (node a ty net nm ks)
    → Distinct x
    → Apart (node a ty net nm ks) x
    → (g : Store) × (merge_diff k a (addr x) h ≡ ok (true, g))
      × Holds g (node a ty net nm (merge_top ks (cons x nil)))
unfolding merge_diff depth
merge_diff-Holds x k a ty net nm ks h le held hx d dx apart =
    let (g, done, held', _) =
      add_as_child_directory-Leaves (cons x nil) k a ty net nm ks h (omega arith) held (hx, tt) d
        (dx, (λ p i. refl), tt) (λ p i. ground (arith, apart p)) in
    (g, rw done, held')
