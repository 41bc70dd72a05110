-- ===== src/Network/Frame.antt =====
-- What the store operations of src/filesystem/network_fs.hpp do to the trees that a store holds.
use guthi_core.Base.{
  Bool, true, false, ◌||◌, ◌≡◌, refl, sym, ap, subst, some-injective, some-ne-none, ◌∙◌, inl, inr,
  Option, none, some, [], ◌∷◌, ◌++◌, arith, Bool-cases, Bytes, equal,
}
use guthi_core.Base.Runs.{ok}
use guthi_core.Network.{Ptr, FileContent, Store, load, find_named}
use guthi_core.Network.Tree.{
  Tree, node, Forest, nil, cons, addr, name_of, type_of, addrs, kids, snoc, content, has, hass,
  Holds, HoldsAll, Distinct, DistinctAll, find, absorb,
}

mutual
  pub Holds-frame :
      (t : Tree) {h g : Store} → Holds h t → ((p : Ptr) → has p t ≡ true → g p ≡ h p) → Holds g t
  Holds-frame (node a ty net nm ks) held same =
      (same a (ground arith) ∙ held.0, HoldsAll-frame ks held.1 λ p i. same p (ground arith))

  pub HoldsAll-frame :
      (ts : Forest) {h g : Store}
      → HoldsAll h ts
      → ((p : Ptr) → hass p ts ≡ true → g p ≡ h p)
      → HoldsAll g ts
  HoldsAll-frame nil held same = tt
  HoldsAll-frame (cons t ts) held same = (
    Holds-frame t held.0 (λ p i. same p (ground arith)),
    HoldsAll-frame ts held.1 λ p i. same p (ground arith),
  )

pub load-eq-ok : (h : Store) (p : Ptr) {c : FileContent} → h p ≡ some c → load h p ≡ ok c
unfolding load
load-eq-ok h p held = rw (held, load)

pub Holds-load :
    (h : Store) (t : Tree)
    → Holds h t
    → (c : FileContent) × (load h (addr t) ≡ ok c)
      × (c.name ≡ name_of t)
      × (c.contents ≡ addrs (kids t))
      × (h (addr t) ≡ some c)
unfolding load
Holds-load h (node a ty net nm ks) held =
    (content ty net nm ks, rw (held.0, load), refl, refl, held.0)

pub Holds-type :
    (h : Store) (t : Tree)
    → Holds h t
    → (c : FileContent) × (load h (addr t) ≡ ok c) × (c.type ≡ type_of t)
Holds-type h (node a ty net nm ks) held = (content ty net nm ks, load-eq-ok h a held.0, refl)

pub addrs-snoc : (ks : Forest) (x : Tree) → addrs (snoc ks x) ≡ addrs ks ++ addr x ∷ []
addrs-snoc nil x = refl
addrs-snoc (cons k ks) x = ap (◌∷◌ (addr k)) (addrs-snoc ks x)

pub HoldsAll-snoc :
    (h : Store) (ks : Forest) (x : Tree) → HoldsAll h ks → Holds h x → HoldsAll h (snoc ks x)
HoldsAll-snoc h nil x held also = (also, tt)
HoldsAll-snoc h (cons k ks) x held also = (held.0, HoldsAll-snoc h ks x held.1 also)

abbrev pub address : Option Tree → Option Ptr
address none = none
address (some t) = some (addr t)

-- `std::find_if` over the children finds the first child with the name.
pub find_named-find :
    (h : Store) (ks : Forest) (x : Tree)
    → HoldsAll h ks
    → Holds h x
    → find_named h (addr x) (addrs ks) ≡ ok (address (find (name_of x) ks))
unfolding find_named
find_named-find h nil x held also = refl
find_named-find h (cons k ks) x held also =
    let (c, c_at, c_name, _, _) = Holds-load h k held.0 in
    let (d, d_at, d_name, _, _) = Holds-load h x also in
    rw (c_at, d_at, c_name, d_name, find_named-find h ks x held.1 also)
      (elim (Bool-cases (equal (name_of k) (name_of x))) [ inl e ↦ rw e | inr e ↦ rw e ])

-- What the tree found inherits from the forest.
module _ (nm : Bytes) where
  pub find-Holds :
      (h : Store) (ks : Forest) {k : Tree} → find nm ks ≡ some k → HoldsAll h ks → Holds h k
  find-Holds h nil found held = cc
  find-Holds h (cons t ks) found held = elim (Bool-cases (equal (name_of t) nm)) [
    | inl e ↦ subst (Holds h) (some-injective _ _ (rw e at found)) held.0
    | inr e ↦ find-Holds h ks (rw e at found) held.1
  ]

  pub find-Distinct : (ks : Forest) {k : Tree} → find nm ks ≡ some k → DistinctAll ks → Distinct k
  find-Distinct nil found ds = cc
  find-Distinct (cons t ks) found ds = elim (Bool-cases (equal (name_of t) nm)) [
    | inl e ↦ subst Distinct (some-injective _ _ (rw e at found)) ds.0
    | inr e ↦ find-Distinct ks (rw e at found) ds.2
  ]

  pub find-has :
      (ks : Forest) {k : Tree} (p : Ptr) → find nm ks ≡ some k → has p k ≡ true → hass p ks ≡ true
  find-has nil p found i = cc
  find-has (cons t ks) {k} p found i = elim (Bool-cases (equal (name_of t) nm)) [
    | inl e ↦
        subst (λ (t' : Tree). (has p t' || hass p ks) ≡ true)
          (sym (some-injective _ _ (rw e at found))) (rw i)
    | inr e ↦ ground (arith, find-has ks p (rw e at found) i)
  ]

-- A name that is not found, or a file, puts the tree at the end.
pub absorb-snoc :
    (keep : Bool) (m : Tree → Tree) (x : Tree) (ks : Forest)
    → find (name_of x) ks ≡ none
    → absorb keep m x ks ≡ snoc ks x
unfolding absorb
absorb-snoc keep m x nil absent = refl
absorb-snoc keep m x (cons k ks) absent = elim (Bool-cases (equal (name_of k) (name_of x))) [
  | inl e ↦ absurd (some-ne-none k (rw e at absent))
  | inr e ↦ rw e (ap (cons k) (absorb-snoc keep m x ks (rw e at absent)))
]

pub absorb_keep-snoc : (m : Tree → Tree) (x : Tree) (ks : Forest) → absorb true m x ks ≡ snoc ks x
unfolding absorb
absorb_keep-snoc m x nil = refl
absorb_keep-snoc m x (cons k ks) = elim (Bool-cases (equal (name_of k) (name_of x))) [
  | inl e ↦ rw e
  | inr e ↦ rw e (ap (cons k) (absorb_keep-snoc m x ks))
]

module _ (h : Store) (x : Tree) where
  -- The forest after `m` was applied to the child `k`, if the run wrote to `k` and `x` only.
  pub absorb-HoldsAll :
      (us : Forest) (m : Tree → Tree) (k : Tree) (g : Store)
      → find (name_of x) us ≡ some k
      → HoldsAll h us
      → DistinctAll us
      → ((p : Ptr) → hass p us ≡ true → has p x ≡ false)
      → Holds g (m k)
      → ((p : Ptr) → has p k ≡ false → has p x ≡ false → g p ≡ h p)
      → HoldsAll g (absorb false m x us)
  unfolding absorb
  absorb-HoldsAll nil m k g found hus ds ap_x new same = cc
  absorb-HoldsAll (cons u us) m k g found hus ds ap_x new same =
      elim (Bool-cases (equal (name_of u) (name_of x))) [
        | inl e ↦
            let is_k : u ≡ k = some-injective _ _ (rw e at found) in
            rw e (
              subst (λ t. Holds g (m t)) (sym is_k) new,
              HoldsAll-frame us hus.1 λ p i.
                  same p (subst (λ t. has p t ≡ false) is_k (ground (arith, ds.1 p)))
                    (ap_x p (ground arith)),
            )
        | inr e ↦
            let later = rw e at found in
            rw e (
              Holds-frame u hus.0 (λ p i.
                  same p (ground (arith, find-has (name_of x) us p later, ds.1 p))
                    (ap_x p (ground arith))),
              absorb-HoldsAll us m k g later hus.1 ds.2 (λ p i. ap_x p (ground arith)) new same,
            )
      ]

  pub absorb-addrs :
      (us : Forest) (m : Tree → Tree)
      → ((t : Tree) → addr (m t) ≡ addr t)
      → {k : Tree} → find (name_of x) us ≡ some k
      → addrs (absorb false m x us) ≡ addrs us
  unfolding absorb
  absorb-addrs nil m same found = cc
  absorb-addrs (cons u us) m same found = elim (Bool-cases (equal (name_of u) (name_of x))) [
    | inl e ↦ rw (e, same u)
    | inr e ↦ rw e (ap (◌∷◌ (addr u)) (absorb-addrs us m same (rw e at found)))
  ]
