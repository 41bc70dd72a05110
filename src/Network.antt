-- ===== src/Network.antt =====
-- src/filesystem/network_fs.hpp: the tree of files that the nodes of the network share. A
-- `FileContent` holds its children by `shared_ptr`, so the trees live in a store of contents at
-- addresses, and a merge changes contents that several trees may hold.
pub mod Tree
pub mod Footprint
pub mod Frame
pub mod Refine
pub mod Merge
pub mod Top
pub mod Paths
pub mod Format
pub mod Edit
mod Examples
use guthi_core.Base.{
  ℕ, zero, suc, ◌+◌, ◌-◌, ◌%◌, ◌^◌, Bool, true, false, ◌||◌, Option, none, some, List, [], ◌∷◌,
  ◌++◌, ◌==◌, if◌then◌else◌, Bytes, codes, equal,
}
use guthi_core.Base.Runs.{Outcome, ok, fault, out_of_fuel, ◌>>=◌}

pub data FileType : Type 0 where
  directory file : FileType

abbrev pub is_file : FileType → Bool
is_file file = true
is_file directory = false

-- The four bytes of an IPv4 address.
pub record NetworkNode : Type 0 where
  pub ipv4 : Bytes

abbrev pub Ptr : Type 0
Ptr = ℕ

pub record FileContent : Type 0 where
  pub type : FileType
  pub network_node : NetworkNode
  pub name : Bytes
  pub contents : List Ptr

-- `none` at an address that holds no content.
abbrev pub Store : Type 0
Store = Ptr → Option FileContent

unfoldable pub write : Store → Ptr → FileContent → Store
write h p c a = if a == p then some c else h a

-- `*p`
unfoldable pub load : Store → Ptr → Outcome FileContent
load h p = elim (h p) [ none ↦ fault | some c ↦ ok c ]

unfoldable pub mem : Ptr → List Ptr → Bool
mem p [] = false
mem p (q ∷ qs) = p == q || mem p qs

-- `p->contents.push_back(x)`, a fault while a loop of the caller runs over that vector.
unfoldable pub push_back : List Ptr → Ptr → Ptr → Store → Outcome Store
unfolding mem load
push_back iterating p x h =
    if mem p iterating
    then fault
    else do c ← load h p; ok (write h p (record c { contents = c.contents ++ x ∷ [] }))

-- `std::find_if` for the first content with the name of `x`, which is read at each comparison.
unfoldable pub find_named : Store → Ptr → List Ptr → Outcome (Option Ptr)
unfolding load
find_named h x [] = ok none
find_named h x (p ∷ ps) = do
  c ← load h p
  d ← load h x
  let rest = find_named h x ps
  if equal c.name d.name then ok (some p) else rest

-- `erase(iter)` of the first content with the name of `x`; `none` if there is none.
unfoldable pub erase_named : Store → Ptr → List Ptr → Outcome (Option (List Ptr))
unfolding load
erase_named h x [] = ok none
erase_named h x (p ∷ ps) = do
  c ← load h p
  d ← load h x
  let rest = erase_named h x ps >>= λ r. ok (elim r [ none ↦ none | some qs ↦ some (p ∷ qs) ])
  if equal c.name d.name then ok (some ps) else rest

unfoldable pub add_file : Ptr → Ptr → Store → Outcome (Bool × Store)
unfolding push_back
add_file dir x h = do h' ← push_back [] dir x h; ok (true, h')

-- `RemoveFile`, behind its search
unfoldable pub remove_found : Ptr → FileContent → Store → Option (List Ptr) → Bool × Store
unfolding write
remove_found dir c h none = (false, h)
remove_found dir c h (some ps) = (true, write h dir (record c { contents = ps }))

unfoldable pub remove_file : Ptr → Ptr → Store → Outcome (Bool × Store)
unfolding load erase_named remove_found
remove_file dir x h = do c ← load h dir; r ← erase_named h x c.contents; ok (remove_found dir c h r)

-- The branch of `MergeSingleFileContent`: `x` is pushed if no child has its name or if it is a
-- file, and merged into the first such child if not.
unfoldable pub merge_child :
    (Ptr → Ptr → Store → Outcome Store) → List Ptr → Ptr → Ptr → Store → Option Ptr → Outcome Store
unfolding load push_back
merge_child merge iterating f x h none = push_back iterating f x h
merge_child merge iterating f x h (some p) = do
  c ← load h x
  if is_file c.type then push_back iterating f x h else merge p x h

-- The loop of `MergeSingleFileContent` over the children of the second content.
unfoldable pub merge_loop :
    (Ptr → Ptr → Store → Outcome Store) → List Ptr → Ptr → List Ptr → Store → Outcome Store
unfolding load find_named merge_child
merge_loop merge iterating f [] h = ok h
merge_loop merge iterating f (x ∷ xs) h = do
  c ← load h f
  found ← find_named h x c.contents
  h' ← merge_child merge iterating f x h found
  merge_loop merge iterating f xs h'

-- `MergeSingleFileContent`. The list holds the contents over whose children a caller's loop runs;
-- the fuel is the depth of the second tree.
unfoldable pub merge_single : ℕ → List Ptr → Ptr → Ptr → Store → Outcome Store
unfolding load
merge_single zero iterating f g h = out_of_fuel
merge_single (suc k) iterating f g h = do
  c ← load h g
  merge_loop (merge_single k (g ∷ iterating)) (g ∷ iterating) f c.contents h

-- The body of the loops of `AddAsChildDirectory` and `MergeTotalFileContent`: whatever the type,
-- `dir` is pushed if no child has its name, and merged if one has.
unfoldable pub add_child : ℕ → Ptr → Ptr → Store → Option Ptr → Outcome Store
unfolding push_back merge_single
add_child k root dir h none = push_back [] root dir h
add_child k root dir h (some p) = merge_single k [] p dir h

unfoldable pub add_as_child_directory : ℕ → Ptr → List Ptr → Store → Outcome Store
unfolding load find_named add_child
add_as_child_directory k root [] h = ok h
add_as_child_directory k root (dir ∷ dirs) h = do
  c ← load h root
  found ← find_named h dir c.contents
  h' ← add_child k root dir h found
  add_as_child_directory k root dirs h'

abbrev pub top_name : Bytes
top_name = codes "Guthi File System"

-- `MergeTotalFileContent`, given the address that `new` returns for the top directory.
unfoldable pub merge_total : ℕ → Ptr → List Ptr → Store → Outcome (Ptr × Store)
unfolding write
merge_total k fresh files h = do
  let top : FileContent = record {
    type = directory;
    network_node = record { ipv4 = 0 ∷ 0 ∷ 0 ∷ 0 ∷ [] };
    name = top_name;
    contents = [];
  }
  h' ← add_as_child_directory k fresh files (write h fresh top)
  ok (fresh, h')

-- `NetworkFS::MergeDiff`, where the first argument is the address of `GFS_root`.
unfoldable pub merge_diff : ℕ → Ptr → Ptr → Store → Outcome (Bool × Store)
merge_diff k gfs_root in_content h = do
  h' ← add_as_child_directory k gfs_root (in_content ∷ []) h
  ok (true, h')
