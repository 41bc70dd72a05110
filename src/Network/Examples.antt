-- ===== src/Network/Examples.antt =====
-- The theorems about src/filesystem/network_fs.hpp at the trees of two nodes of the network.
use guthi_core.Base.{
  ℕ, true, ◌≡◌, refl, none, some, List, [], ◌∷◌, arith, ◌==◌, if◌then◌else◌, Bytes, codes, equal,
}
use guthi_core.Network.Edit.{Removes, remove_first, remove_file-Removes, remove_file-add_file}
use guthi_core.Network.Format.{print}
use guthi_core.Network.Merge.{LeavesAll, merge_single-Leaves}
use guthi_core.Base.Runs.{ok}
use guthi_core.Network.Paths.{leads, merge_total-leads}
use guthi_core.Network.Refine.{Leaves, depth}
use guthi_core.Network.Top.{add_as_child_directory-Leaves, merge_diff-Holds}
use guthi_core.Network.{
  file, directory, NetworkNode, Ptr, Store, merge_single, add_as_child_directory, merge_total,
  merge_loop, find_named, add_child, push_back, merge_child, write, load, mem, merge_diff,
  remove_file, add_file,
}
use guthi_core.Network.Tree.{
  Tree, node, nil, cons, addr, kids, content, Holds, Apart, Distinct, merge, merge_top,
}

abbrev host : ℕ → NetworkNode
host n = record { ipv4 = 10 ∷ 0 ∷ 0 ∷ n ∷ [] }

abbrev leaf : Ptr → ℕ → Bytes → Tree
leaf a n nm = node a file (host n) nm nil

-- Two nodes share a directory of one name; one file has the same name on both.
abbrev first : Tree
first =
    node 1 directory (host 1) (codes "docs")
      (cons (leaf 2 1 (codes "a")) (cons (leaf 3 1 (codes "b")) nil))

abbrev second : Tree
second =
    node 4 directory (host 2) (codes "docs")
      (cons (leaf 5 2 (codes "b")) (cons (leaf 6 2 (codes "c")) nil))

abbrev root : Tree
root = node 7 directory (host 1) (codes "/") (cons first nil)

abbrev memory : Store
memory p =
    if p == 1
    then some (
        content directory (host 1) (codes "docs")
          (cons (leaf 2 1 (codes "a")) (cons (leaf 3 1 (codes "b")) nil)))
    else if p == 2
    then some (content file (host 1) (codes "a") nil)
    else if p == 3
    then some (content file (host 1) (codes "b") nil)
    else if p == 4
    then some (
        content directory (host 2) (codes "docs")
          (cons (leaf 5 2 (codes "b")) (cons (leaf 6 2 (codes "c")) nil)))
    else if p == 5
    then some (content file (host 2) (codes "b") nil)
    else if p == 6
    then some (content file (host 2) (codes "c") nil)
    else if p == 7
    then some (content directory (host 1) (codes "/") (cons first nil))
    else none

first_held : Holds memory first
first_held = (refl, ((refl, tt), ((refl, tt), tt)))

second_held : Holds memory second
second_held = (refl, ((refl, tt), ((refl, tt), tt)))

root_held : Holds memory root
root_held = (refl, (first_held, tt))

first-Distinct : Distinct first
first-Distinct =
    (refl, ((refl, tt), (λ p h. ground arith), ((refl, tt), (λ p h. ground arith), tt)))

second-Distinct : Distinct second
second-Distinct =
    (refl, ((refl, tt), (λ p h. ground arith), ((refl, tt), (λ p h. ground arith), tt)))

root-Distinct : Distinct root
root-Distinct = (refl, (first-Distinct, (λ p h. ground arith), tt))

first-second : Apart first second
first-second p h = ground arith

root-second : Apart root second
root-second p h = ground arith

merge_total-leads_example :
    (g : Store) × (t : Tree) × (merge_total 2 8 (1 ∷ 4 ∷ []) memory ≡ ok (addr t, g))
    × Holds g t
    × ((ns : List Bytes) → leads ns (kids t) ≡ leads ns (cons first (cons second nil)))
merge_total-leads_example =
    merge_total-leads (cons first (cons second nil)) 2 8 memory (unfold depth in omega arith)
      (first_held, (second_held, tt))
      (first-Distinct, (λ p h. ground arith), (second-Distinct, (λ p h. ground arith), tt)) refl

merge_single-Leaves_example :
    Leaves memory first second (merge first second) (merge_single 2 [] 1 4 memory)
merge_single-Leaves_example =
    merge_single-Leaves first second 2 [] memory (unfold depth in omega arith) first_held
      second_held first-Distinct second-Distinct first-second (unfold mem in λ p h. cc)
      (unfold mem in λ p h. cc)

add_as_child_directory-Leaves_test :
    LeavesAll memory root
      (cons second nil)
      (node 7 directory (host 1) (codes "/") (merge_top (cons first nil) (cons second nil)))
      (add_as_child_directory 2 7 (4 ∷ []) memory)
add_as_child_directory-Leaves_test =
    add_as_child_directory-Leaves (cons second nil) 2 7 directory (host 1) (codes "/")
      (cons first nil) memory (unfold depth in omega arith) root_held (second_held, tt)
      root-Distinct (second-Distinct, (λ p h. ground arith), tt) (λ p h. ground arith)

merge_diff-Holds_test :
    (g : Store) × (merge_diff 2 7 4 memory ≡ ok (true, g))
    × Holds g (node 7 directory (host 1) (codes "/") (merge_top (cons first nil) (cons second nil)))
merge_diff-Holds_test =
    merge_diff-Holds second 2 7 directory (host 1) (codes "/") (cons first nil) memory
      (unfold depth in omega arith) root_held second_held root-Distinct second-Distinct root-second

-- The merge of the two nodes' trees as `PrettyPrintFileSystem` shows it: "b" stands twice, since a
-- file is added beside a file of its name.
printed :
    (elim (merge_total 2 8 (1 ∷ 4 ∷ []) memory) [ ok (p, g) ↦ print 3 g p | other ↦ ok [] ])
    ≡ ok (
        codes
          "|_____Folder [Guthi File System]\n|     |_____Folder [docs]\n|     |     |_____File [a]\n|     |     |_____File [b]\n|     |     |_____File [b]\n|     |     |_____File [c]\n")
unfolding merge_total print add_as_child_directory merge_single merge_loop equal find_named
    add_child push_back merge_child write load
printed = refl

remove_file-add_file_example :
    (g g' : Store) × (add_file 1 6 memory ≡ ok (true, g))
    × (remove_file 1 6 g ≡ ok (true, g'))
    × Holds g' first
remove_file-add_file_example =
    remove_file-add_file memory 1 directory (host 1) (codes "docs")
      (cons (leaf 2 1 (codes "a")) (cons (leaf 3 1 (codes "b")) nil)) (leaf 6 2 (codes "c"))
      first_held (refl, tt) first-Distinct (refl, tt) (λ p h. ground arith) (unfold equal in refl)

remove_file-Removes_test :
    Removes 1 directory
      (host 1)
      (codes "docs")
      memory
      (remove_file 1 5 memory)
      (remove_first (codes "b") (cons (leaf 2 1 (codes "a")) (cons (leaf 3 1 (codes "b")) nil)))
remove_file-Removes_test =
    remove_file-Removes memory 1 directory (host 1) (codes "docs")
      (cons (leaf 2 1 (codes "a")) (cons (leaf 3 1 (codes "b")) nil)) (leaf 5 2 (codes "b"))
      first_held (refl, tt) first-Distinct
