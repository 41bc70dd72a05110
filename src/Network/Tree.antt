-- ===== src/Network/Tree.antt =====
-- Trees of contents as values, each node with the address at which the store holds it, and the
-- merges of src/filesystem/network_fs.hpp on such values.
use guthi_core.Base.{
  Bool, true, false, ◌||◌, ◌≡◌, Option, none, some, List, [], ◌∷◌, ◌==◌, if◌then◌else◌, Bytes,
  equal,
}
use guthi_core.Network.{FileType, is_file, NetworkNode, Ptr, FileContent, Store}

mutual
  pub data Tree : Type 0 where
    node : Ptr → FileType → NetworkNode → Bytes → Forest → Tree

  pub data Forest : Type 0 where
    nil : Forest
    cons : Tree → Forest → Forest

abbrev pub addr : Tree → Ptr
addr (node a ty net nm ks) = a

abbrev pub type_of : Tree → FileType
type_of (node a ty net nm ks) = ty

abbrev pub name_of : Tree → Bytes
name_of (node a ty net nm ks) = nm

abbrev pub kids : Tree → Forest
kids (node a ty net nm ks) = ks

abbrev pub addrs : Forest → List Ptr
addrs nil = []
addrs (cons t ts) = addr t ∷ addrs ts

abbrev pub snoc : Forest → Tree → Forest
snoc nil x = cons x nil
snoc (cons k ks) x = cons k (snoc ks x)

-- The content that stands at the root of a tree.
abbrev pub content : FileType → NetworkNode → Bytes → Forest → FileContent
content ty net nm ks = record { type = ty; network_node = net; name = nm; contents = addrs ks }

-- Whether an address belongs to a tree.
abbrev mutual
  pub has : Ptr → Tree → Bool
  has p (node a ty net nm ks) = p == a || hass p ks

  pub hass : Ptr → Forest → Bool
  hass p nil = false
  hass p (cons t ts) = has p t || hass p ts

-- The store holds the tree.
abbrev mutual
  pub Holds : Store → Tree → Type 0
  Holds h (node a ty net nm ks) = (h a ≡ some (content ty net nm ks)) × HoldsAll h ks

  pub HoldsAll : Store → Forest → Type 0
  HoldsAll h nil = Unit {0}
  HoldsAll h (cons t ts) = Holds h t × HoldsAll h ts

-- No address stands in both trees, in a tree and a forest, in both forests.
abbrev pub Apart : Tree → Tree → Type 0
Apart t u = (p : Ptr) → has p t ≡ true → has p u ≡ false

abbrev pub ApartAll : Tree → Forest → Type 0
ApartAll t us = (p : Ptr) → has p t ≡ true → hass p us ≡ false

abbrev pub ApartForests : Forest → Forest → Type 0
ApartForests ts us = (p : Ptr) → hass p ts ≡ true → hass p us ≡ false

-- No address stands twice: the tree shares no node with itself.
abbrev mutual
  pub Distinct : Tree → Type 0
  Distinct (node a ty net nm ks) = (hass a ks ≡ false) × DistinctAll ks

  pub DistinctAll : Forest → Type 0
  DistinctAll nil = Unit {0}
  DistinctAll (cons t ts) = Distinct t × ApartAll t ts × DistinctAll ts

-- The first tree with a name.
abbrev pub find : Bytes → Forest → Option Tree
find nm nil = none
find nm (cons k ks) = if equal (name_of k) nm then some k else find nm ks

-- `x` goes to the end if no tree has its name, or if `keep` says to keep both; otherwise `m` is
-- applied to the first tree with its name.
unfoldable pub absorb : Bool → (Tree → Tree) → Tree → Forest → Forest
absorb keep m x nil = cons x nil
absorb keep m x (cons k ks) =
    if equal (name_of k) (name_of x)
    then (if keep then cons k (snoc ks x) else cons (m k) ks)
    else cons k (absorb keep m x ks)

abbrev pub with_kids : Tree → Forest → Tree
with_kids (node a ty net nm ks) us = node a ty net nm us

unfoldable mutual
  -- `MergeSingleFileContent`
  pub merge : Tree → Tree → Tree
  merge t (node b ty net nm xs) = with_kids t (merge_kids (kids t) xs)

  pub merge_kids : Forest → Forest → Forest
  merge_kids ks nil = ks
  merge_kids ks (cons x xs) = merge_kids (absorb (is_file (type_of x)) (λ k. merge k x) x ks) xs

-- `AddAsChildDirectory`
unfoldable pub merge_top : Forest → Forest → Forest
unfolding absorb merge
merge_top ks nil = ks
merge_top ks (cons x xs) = merge_top (absorb false (λ k. merge k x) x ks) xs
