-- ===== src/Network/Merge.antt =====
-- The merges of src/filesystem/network_fs.hpp, whole: `MergeSingleFileContent`,
-- `AddAsChildDirectory`, `MergeTotalFileContent` and `MergeDiff` refine the merges of tree values.
use guthi_core.Base.{
  ℕ, zero, suc, ◌≤◌, Bool, true, false, ◌≡◌, refl, ◌∙◌, Option, some, List, [], ◌∷◌, arith, Bytes,
}
use guthi_core.Network.Footprint.{outside-absorb, absorb-merge-DistinctAll}
use guthi_core.Network.Frame.{HoldsAll-frame, load-eq-ok, find_named-find}
use guthi_core.Base.Runs.{Outcome, ok}
use guthi_core.Network.Refine.{depth, depths, Leaves, Idle, merge_child-Leaves}
use guthi_core.Network.{
  Ptr, FileType, FileContent, find_named, merge_child, is_file, NetworkNode, Store, mem, merge_loop,
  merge_single,
}
use guthi_core.Network.Tree.{
  Tree, node, Forest, nil, cons, addr, type_of, addrs, has, hass, Holds, HoldsAll, Apart, ApartAll,
  Distinct, DistinctAll, absorb, merge, merge_kids,
}

abbrev IdleAll : List Ptr → Forest → Type 0
IdleAll iterating ts = (p : Ptr) → mem p iterating ≡ true → hass p ts ≡ false

-- As `Leaves`, for a forest that is merged in.
abbrev pub LeavesAll : Store → Tree → Forest → Tree → Outcome Store → Type 0
LeavesAll h t xs u r =
    (g : Store) × (r ≡ ok g)
    × Holds g u
    × ((p : Ptr) → has p t ≡ false → hass p xs ≡ false → g p ≡ h p)

-- The equations of the loop, for each way in which its calls end.
module _ (h : Store) where
  merge_single-suc :
      (k : ℕ) (iterating : List Ptr) (f g : Ptr) {c : FileContent}
      → h g ≡ some c
      → merge_single (suc k) iterating f g h
        ≡ merge_loop (merge_single k (g ∷ iterating)) (g ∷ iterating) f c.contents h
  unfolding merge_single
  merge_single-suc k iterating f g held = rw (load-eq-ok h g held)

  merge_loop-nil :
      (m : Ptr → Ptr → Store → Outcome Store) (iterating : List Ptr) (f : Ptr)
      → merge_loop m iterating f [] h ≡ ok h
  unfolding merge_loop
  merge_loop-nil m iterating f = refl

  merge_loop-cons :
      (m : Ptr → Ptr → Store → Outcome Store) (iterating : List Ptr) (f x : Ptr) (xs : List Ptr)
      {c : FileContent} {found : Option Ptr} {g : Store}
      → h f ≡ some c
      → find_named h x c.contents ≡ ok found
      → merge_child m iterating f x h found ≡ ok g
      → merge_loop m iterating f (x ∷ xs) h ≡ merge_loop m iterating f xs g
  unfolding merge_loop
  merge_loop-cons m iterating f x xs held searched done = rw (load-eq-ok h f held, searched, done)

-- The next turn starts as this one did, at the store `g` and the children `us`.
module _ (h g : Store) (keep : Bool) (a : Ptr) (ty : FileType) (net : NetworkNode) (nm : Bytes)
    (ks : Forest) (x : Tree) (xs : Forest) (distinct : Distinct (node a ty net nm ks))
    (ds : DistinctAll (cons x xs)) (apart : ApartAll (node a ty net nm ks) (cons x xs))
    (same : (p : Ptr) → has p (node a ty net nm ks) ≡ false → has p x ≡ false → g p ≡ h p) where
  abbrev pub next_kids : Forest
  next_kids = absorb keep (λ t. merge t x) x ks

  pub next-Distinct : Distinct (node a ty net nm next_kids)
  next-Distinct = (
    ground (arith, outside-absorb keep x ks a, distinct.0, apart a),
    absorb-merge-DistinctAll keep x ks distinct.1 ds.0 λ p i. ground (arith, apart p),
  )

  pub next-has :
      (p : Ptr)
      → has p (node a ty net nm ks) ≡ false
      → has p x ≡ false
      → has p (node a ty net nm next_kids) ≡ false
  next-has p i j = ground (arith, outside-absorb keep x ks p)

  pub next-ApartAll : ApartAll (node a ty net nm next_kids) xs
  next-ApartAll p i = ground (arith, next-has p, apart p, ds.1 p)

  pub next-HoldsAll : HoldsAll h xs → HoldsAll g xs
  next-HoldsAll held =
      HoldsAll-frame xs held λ p i. same p (ground (arith, apart p)) (ground (arith, ds.1 p))

mutual
  unfolding merge depth mem

  merge_single-Leaves_tree :
      (x : Tree) (k : ℕ) (iterating : List Ptr) (t : Tree) (h : Store)
      → depth x ≤ k
      → Holds h t
      → Holds h x
      → Distinct t
      → Distinct x
      → Apart t x
      → Idle iterating t
      → Idle iterating x
      → Leaves h t x (merge t x) (merge_single k iterating (addr t) (addr x) h)
  merge_single-Leaves_tree (node b ty' net' nm' xs) zero its t h le ht hx dt dx apart idle idle_x =
      absurd (omega arith)
  merge_single-Leaves_tree (node b ty' net' nm' xs) (suc k) its (node a ty net nm ks) h le ht hx dt
        dx apart idle idle_x =
      let (g, done, held, same) =
        merge_loop-Leaves xs k (b ∷ its) a ty net nm ks h (omega arith) ht hx.1 dt dx.1
          (λ p i. ground (arith, apart p)) (λ p i. ground (arith, idle p, apart p))
          (λ p i. ground (arith, idle_x p, dx.0)) in
      (g, merge_single-suc h k its a b hx.0 ∙ done, held, λ p i j. same p i (ground arith))

  merge_loop-Leaves :
      (xs : Forest) (k : ℕ) (iterating : List Ptr) (a : Ptr) (ty : FileType) (net : NetworkNode)
      (nm : Bytes) (ks : Forest) (h : Store)
      → depths xs ≤ k
      → Holds h (node a ty net nm ks)
      → HoldsAll h xs
      → Distinct (node a ty net nm ks)
      → DistinctAll xs
      → ApartAll (node a ty net nm ks) xs
      → Idle iterating (node a ty net nm ks)
      → IdleAll iterating xs
      → LeavesAll h
          (node a ty net nm ks)
          xs
          (node a ty net nm (merge_kids ks xs))
          (merge_loop (merge_single k iterating) iterating a (addrs xs) h)
  merge_loop-Leaves nil k its a ty net nm ks h le held hxs d ds apart idle idle_xs =
      (h, merge_loop-nil h (merge_single k its) its a, held, λ p i j. refl)
  merge_loop-Leaves (cons x xs) k its a ty net nm ks h le held hxs d ds apart idle idle_xs =
      let keep = is_file (type_of x) in
      let us = absorb keep (λ t. merge t x) x ks in
      let ap_x : Apart (node a ty net nm ks) x = λ p i. ground (arith, apart p) in
      let (g, done, held', same) =
        merge_child-Leaves h its a ty net nm ks x held hxs.0 d ds.0 ap_x (merge_single k its)
          (λ t ht dt at it.
            merge_single-Leaves_tree x k its t h (omega arith) ht hxs.0 dt ds.0 at it
              (λ p i. ground (arith, idle_xs p)))
          idle in
      let (g', done', held'', same') =
        merge_loop-Leaves xs k its a ty net nm us g (omega arith) held'
          (next-HoldsAll h g keep a ty net nm ks x xs d ds apart same hxs.1)
          (next-Distinct h g keep a ty net nm ks x xs d ds apart same) ds.2
          (next-ApartAll h g keep a ty net nm ks x xs d ds apart same)
          (λ p i.
            next-has h g keep a ty net nm ks x xs d ds apart same p (idle p i)
              (ground (arith, idle_xs p)))
          (λ p i. ground (arith, idle_xs p)) in
      (
        g',
        merge_loop-cons h (merge_single k its) its a (addr x) (addrs xs) held.0
              (find_named-find h ks x held.1 hxs.0) done
            ∙ done',
        held'',
        λ p i j.
            same' p (next-has h g keep a ty net nm ks x xs d ds apart same p i (ground arith))
              (ground arith)
            ∙ same p i (ground arith),
      )

-- `MergeSingleFileContent` on two trees of the store that share no node, each node standing once in
-- its tree, while no loop of a caller runs over a node of either, and with fuel for the depth of the
-- second: the call returns, the store then holds the merge of the two trees at the address of the
-- first, and it has changed at addresses of these trees only.
pub merge_single-Leaves :
    (t x : Tree) (k : ℕ) (iterating : List Ptr) (h : Store)
    → depth x ≤ k
    → Holds h t
    → Holds h x
    → Distinct t
    → Distinct x
    → Apart t x
    → Idle iterating t
    → Idle iterating x
    → Leaves h t x (merge t x) (merge_single k iterating (addr t) (addr x) h)
merge_single-Leaves t x k iterating h = merge_single-Leaves_tree x k iterating t h
