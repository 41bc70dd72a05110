-- ===== src/Network/Refine.antt =====
-- `MergeSingleFileContent` of src/filesystem/network_fs.hpp on two trees of the store that share no
-- node: it ends, meets no undefined behaviour, and leaves the merge of the two trees.
use Prim.Native.Nat.{max}
use guthi_core.Base.{
  ℕ, suc, true, false, ◌≡◌, refl, sym, ap, ◌∙◌, inl, inr, some, List, arith, Bool-cases,
  Option-cases, Bytes,
}
use guthi_core.Network.Footprint.{hass-snoc}
use guthi_core.Network.Frame.{
  load-eq-ok, HoldsAll-frame, Holds-type, addrs-snoc, HoldsAll-snoc, address, find-Holds,
  find-Distinct, find-has, absorb-snoc, absorb_keep-snoc, absorb-HoldsAll, absorb-addrs,
}
use guthi_core.Base.Runs.{Outcome, ok}
use guthi_core.Network.{
  Ptr, FileType, is_file, NetworkNode, Store, write, mem, push_back, merge_child,
}
use guthi_core.Network.Tree.{
  Tree, node, Forest, nil, cons, addr, type_of, name_of, snoc, content, has, Holds, Apart, Distinct,
  find, absorb, merge,
}

unfoldable mutual
  pub depth : Tree → ℕ
  depth (node a ty net nm ks) = suc (depths ks)

  pub depths : Forest → ℕ
  depths nil = 0
  depths (cons t ts) = max (depth t) (depths ts)

-- The run ends with a store that holds `u`, and has written to nodes of `t` and `x` only.
abbrev pub Leaves : Store → Tree → Tree → Tree → Outcome Store → Type 0
Leaves h t x u r =
    (g : Store) × (r ≡ ok g)
    × Holds g u
    × ((p : Ptr) → has p t ≡ false → has p x ≡ false → g p ≡ h p)

-- No loop of a caller runs over a node of the tree.
abbrev pub Idle : List Ptr → Tree → Type 0
Idle iterating t = (p : Ptr) → mem p iterating ≡ true → has p t ≡ false

pub addr-merge : (t x : Tree) → addr (merge t x) ≡ addr t
unfolding merge
addr-merge (node a ty net nm ks) (node b ty' net' nm' xs) = refl

-- One turn of the loop: the node at `a` has the children `ks`, and `x` is merged into these.
module _ (h : Store) (iterating : List Ptr) (a : Ptr) (ty : FileType) (net : NetworkNode)
    (nm : Bytes) (ks : Forest) (x : Tree) (held : Holds h (node a ty net nm ks)) (also : Holds h x)
    (distinct : Distinct (node a ty net nm ks)) (distinct_x : Distinct x)
    (apart : Apart (node a ty net nm ks) x) where
  pub push_back-Leaves :
      Idle iterating (node a ty net nm ks)
      → Leaves h
          (node a ty net nm ks)
          x
          (node a ty net nm (snoc ks x))
          (push_back iterating a (addr x) h)
  unfolding push_back write
  push_back-Leaves idle =
      let free : mem a iterating ≡ false = ground (arith, idle a) in
      let out_x : has a x ≡ false = apart a (ground arith) in
      (
        write h a (content ty net nm (snoc ks x)),
        rw (free, load-eq-ok h a held.0, addrs-snoc ks x),
        (
          ground arith,
          HoldsAll-frame (snoc ks x) (HoldsAll-snoc h ks x held.1 also)
              λ p i. ground (arith, hass-snoc a ks x),
        ),
        λ p i j. ground arith,
      )

  -- The branch where a child has the name of `x`: `r` is the run of the merge into it.
  pub merge-Leaves :
      {k : Tree} (r : Outcome Store)
      → find (name_of x) ks ≡ some k
      → Leaves h k x (merge k x) r
      → Leaves h (node a ty net nm ks) x (node a ty net nm (absorb false (λ t. merge t x) x ks)) r
  merge-Leaves {k} r found (g, done, merged, same) =
      let out_k : has a k ≡ false = ground (arith, find-has (name_of x) ks a found, distinct.0) in
      (
        g,
        done,
        (
          same a out_k (apart a (ground arith))
              ∙ held.0
              ∙ ap (λ (ps : List Ptr). some (record (content ty net nm ks) { contents = ps }))
                  (sym (absorb-addrs h x ks (λ t. merge t x) (λ t. addr-merge t x) found)),
          absorb-HoldsAll h x ks (λ t. merge t x) k g found held.1 distinct.1
              (λ p i. apart p (ground arith)) merged same,
        ),
        λ p i j. same p (ground (arith, find-has (name_of x) ks p found)) j,
      )

  -- What the merge into a child needs of it.
  pub child_facts :
      {k : Tree}
      → find (name_of x) ks ≡ some k
      → Holds h k
        × Distinct k
        × Apart k x
        × ((its : List Ptr) → Idle its (node a ty net nm ks) → Idle its k)
  child_facts {k} found = (
    find-Holds (name_of x) h ks found held.1,
    find-Distinct (name_of x) ks found distinct.1,
    λ p i. apart p (ground (arith, find-has (name_of x) ks p found)),
    λ its idle p i. ground (arith, find-has (name_of x) ks p found, idle p),
  )

  -- `MergeSingleFileContent`'s branch, given what the call for a child does.
  pub merge_child-Leaves :
      (m : Ptr → Ptr → Store → Outcome Store)
      → ((t : Tree)
          → Holds h t
          → Distinct t
          → Apart t x
          → Idle iterating t
          → Leaves h t x (merge t x) (m (addr t) (addr x) h))
      → Idle iterating (node a ty net nm ks)
      → Leaves h
          (node a ty net nm ks)
          x
          (node a ty net nm (absorb (is_file (type_of x)) (λ t. merge t x) x ks))
          (merge_child m iterating a (addr x) h (address (find (name_of x) ks)))
  unfolding merge_child
  merge_child-Leaves m rec idle = elim (Option-cases (find (name_of x) ks)) [
    | inl absent ↦
        rw (absent, absorb-snoc (is_file (type_of x)) (λ t. merge t x) x ks absent)
          (push_back-Leaves idle)
    | inr (k, found) ↦
        let (c, c_at, c_type) = Holds-type h x also in
        elim (Bool-cases (is_file (type_of x))) [
          | inl e ↦
              rw (found, c_at, c_type, e, absorb_keep-snoc (λ t. merge t x) x ks)
                (push_back-Leaves idle)
          | inr e ↦
              let (hk, dk, ak, ik) = child_facts found in
              rw (found, c_at, c_type, e)
                (merge-Leaves (m (addr k) (addr x) h) found (rec k hk dk ak (ik iterating idle)))
        ]
  ]
