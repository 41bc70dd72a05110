-- ===== src/Network/Edit.antt =====
-- `AddFile` and `RemoveFile` of src/filesystem/network_fs.hpp on the trees that a store holds.
use guthi_core.Base.{
  Bool, true, false, ◌≡◌, ◌≢◌, refl, sym, ap, inl, inr, Option, none, some, some-ne-none, List, [],
  ◌∷◌, arith, if◌then◌else◌, Bool-cases, Option-cases, Bytes, equal, equal_refl,
}
use guthi_core.Network.Footprint.{hass-snoc, DistinctAll-snoc}
use guthi_core.Network.Frame.{HoldsAll-frame, Holds-load, load-eq-ok}
use guthi_core.Base.Runs.{Outcome, ok}
use guthi_core.Network.Refine.{push_back-Leaves}
use guthi_core.Network.{
  Ptr, FileType, remove_found, NetworkNode, Store, write, mem, erase_named, add_file, remove_file,
}
use guthi_core.Network.Tree.{
  Tree, node, Forest, nil, cons, addr, name_of, addrs, snoc, content, hass, Holds, HoldsAll, Apart,
  Distinct, find,
}

-- The forest without its first tree of a name; `none` if there is no such tree.
abbrev pub remove_first : Bytes → Forest → Option Forest
remove_first nm nil = none
remove_first nm (cons k ks) =
    if equal (name_of k) nm
    then some ks
    else elim (remove_first nm ks) [ none ↦ none | some us ↦ some (cons k us) ]

abbrev addresses : Option Forest → Option (List Ptr)
addresses none = none
addresses (some ks) = some (addrs ks)

addresses-cons :
    (k : Tree) (r : Option Forest)
    → addresses (elim r [ none ↦ none | some us ↦ some (cons k us) ])
      ≡ elim (addresses r) [ none ↦ none | some qs ↦ some (addr k ∷ qs) ]
addresses-cons k none = refl
addresses-cons k (some us) = refl

remove_first-snoc :
    (ks : Forest) (x : Tree)
    → find (name_of x) ks ≡ none
    → remove_first (name_of x) (snoc ks x) ≡ some ks
remove_first-snoc nil x absent = rw (equal_refl (name_of x))
remove_first-snoc (cons k ks) x absent = elim (Bool-cases (equal (name_of k) (name_of x))) [
  | inl e ↦ absurd (some-ne-none k (rw e at absent))
  | inr e ↦ rw (e, remove_first-snoc ks x (rw e at absent))
]

-- What is left is held as before, and has no new address.
abbrev Kept : Store → Forest → Option Forest → Type 0
Kept h ks none = Unit {0}
Kept h ks (some us) = HoldsAll h us × ((p : Ptr) → hass p ks ≡ false → hass p us ≡ false)

Kept-cons :
    (h : Store) (k : Tree) (ks : Forest) (r : Option Forest)
    → Holds h k
    → Kept h ks r
    → Kept h (cons k ks) (elim r [ none ↦ none | some us ↦ some (cons k us) ])
Kept-cons h k ks none held kept = tt
Kept-cons h k ks (some us) held kept = ((held, kept.0), λ p i. ground (arith, kept.1 p))

remove_first-Kept :
    (h : Store) (nm : Bytes) (ks : Forest) → HoldsAll h ks → Kept h ks (remove_first nm ks)
remove_first-Kept h nm nil held = tt
remove_first-Kept h nm (cons k ks) held = elim (Bool-cases (equal (name_of k) nm)) [
  | inl e ↦ rw e (held.1, λ p i. ground arith)
  | inr e ↦ rw e (Kept-cons h k ks (remove_first nm ks) held.0 (remove_first-Kept h nm ks held.1))
]

erase_named-remove_first :
    (h : Store) (ks : Forest) (x : Tree)
    → HoldsAll h ks
    → Holds h x
    → erase_named h (addr x) (addrs ks) ≡ ok (addresses (remove_first (name_of x) ks))
unfolding erase_named
erase_named-remove_first h nil x held also = refl
erase_named-remove_first h (cons k ks) x held also =
    let (c, c_at, c_name, _, _) = Holds-load h k held.0 in
    let (d, d_at, d_name, _, _) = Holds-load h x also in
    rw (c_at, d_at, c_name, d_name, erase_named-remove_first h ks x held.1 also)
      (elim (Bool-cases (equal (name_of k) (name_of x))) [
        | inl e ↦ rw e
        | inr e ↦ rw e (ap ok (sym (addresses-cons k (remove_first (name_of x) ks))))
      ])

-- What `RemoveFile` does to the directory at `a`: false and an unchanged store if no child has the
-- name, and true and a store that holds the directory without the first such child if one has.
abbrev pub Removes :
    Ptr → FileType → NetworkNode → Bytes → Store → Outcome (Bool × Store) → Option Forest → Type 0
Removes a ty net nm h r none = r ≡ ok (false, h)
Removes a ty net nm h r (some us) =
    (g : Store) × (r ≡ ok (true, g))
    × Holds g (node a ty net nm us)
    × ((p : Ptr) → p ≢ a → g p ≡ h p)

module _ (h : Store) (a : Ptr) (ty : FileType) (net : NetworkNode) (nm : Bytes) (ks : Forest)
    (x : Tree) (held : Holds h (node a ty net nm ks)) (also : Holds h x)
    (distinct : Distinct (node a ty net nm ks)) where
  remove_file-eq :
      {r : Option Forest}
      → remove_first (name_of x) ks ≡ r
      → remove_file a (addr x) h
        ≡ ok (elim r [ none ↦ (false, h) | some us ↦ (true, write h a (content ty net nm us)) ])
  unfolding remove_file
  remove_file-eq {r} found =
      rw (load-eq-ok h a held.0, erase_named-remove_first h ks x held.1 also, found) (cases r)
    where
      cases :
          (r : Option Forest)
          → ok (remove_found a (content ty net nm ks) h (addresses r))
            ≡ ok (elim r [ none ↦ (false, h) | some us ↦ (true, write h a (content ty net nm us)) ])
      cases none = refl
      cases (some us) = refl

  -- `RemoveFile` on a directory of the store, whose own tree shares no node with itself, takes out
  -- the first child with the name of `x`, and nothing else; it says whether there was one.
  pub remove_file-Removes :
      Removes a ty net nm h (remove_file a (addr x) h) (remove_first (name_of x) ks)
  remove_file-Removes = elim (Option-cases (remove_first (name_of x) ks)) [
    | inl absent ↦ rw absent (remove_file-eq absent)
    | inr (us, found) ↦
        let kept = rw found at (remove_first-Kept h (name_of x) ks held.1) in
        rw found (
          write h a (content ty net nm us),
          remove_file-eq found,
          unfold write in
              (ground arith, HoldsAll-frame us kept.0 λ p i. ground (arith, kept.1 a, distinct.0)),
          unfold write in λ p ne. ground arith,
        )
  ]

HoldsAll-last : (h : Store) (ks : Forest) (x : Tree) → HoldsAll h (snoc ks x) → Holds h x
HoldsAll-last h nil x held = held.0
HoldsAll-last h (cons k ks) x held = HoldsAll-last h ks x held.1

module _ (h : Store) (a : Ptr) (ty : FileType) (net : NetworkNode) (nm : Bytes) (ks : Forest)
    (x : Tree) (held : Holds h (node a ty net nm ks)) (also : Holds h x)
    (distinct : Distinct (node a ty net nm ks)) (distinct_x : Distinct x)
    (apart : Apart (node a ty net nm ks) x) where
  add_file-Leaves :
      (g : Store) × (add_file a (addr x) h ≡ ok (true, g)) × Holds g (node a ty net nm (snoc ks x))
  unfolding add_file mem
  add_file-Leaves =
      let (g, done, held', _) =
        push_back-Leaves h [] a ty net nm ks x held also distinct distinct_x apart (λ p i. cc) in
      (g, rw done, held')

  -- `RemoveFile` undoes `AddFile`: for a file that shares no node with the directory, and whose name
  -- no child has, both return true, and the store holds the directory as it was before.
  pub remove_file-add_file :
      find (name_of x) ks ≡ none
      → (g g' : Store) × (add_file a (addr x) h ≡ ok (true, g))
        × (remove_file a (addr x) g ≡ ok (true, g'))
        × Holds g' (node a ty net nm ks)
  remove_file-add_file absent =
      let (g, added, held') = add_file-Leaves in
      let d : Distinct (node a ty net nm (snoc ks x)) = (
        ground (arith, hass-snoc a ks x, distinct.0, apart a),
        DistinctAll-snoc ks x distinct.1 distinct_x λ p i. apart p (ground arith),
      ) in
      let (g', removed, held'', _) =
        rw (remove_first-snoc ks x absent) at (
          remove_file-Removes g a ty net nm (snoc ks x) x held' (HoldsAll-last g ks x held'.1) d) in
      (g, g', added, removed, held'')
