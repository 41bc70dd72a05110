-- ===== src/Network/Format/Outline.antt =====
-- The printed text of src/filesystem/network_fs.hpp is the outline of the tree, line by line.
use guthi_core.Base.{
  ℕ, zero, suc, ◌+◌, ◌%◌, ◌^◌, ◌≤◌, ◌<◌, codes, replicate, ◌≡◌, refl, sym, ap, ◌∙◌, append-nil,
  some, List, [], ◌∷◌, ◌++◌, append_assoc, arith, if◌then◌else◌, Bytes,
}
use guthi_core.Network.{Ptr, FileType, is_file, file, directory, FileContent, Store}
use guthi_core.Network.Format.{rounds, indent, line, format_children, file_formatter}
use guthi_core.Network.Frame.{load-eq-ok}
use guthi_core.Base.Runs.{Outcome, ok, ◌>>=◌}
use guthi_core.Network.Refine.{depth, depths}
use guthi_core.Network.Tree.{Tree, node, Forest, nil, cons, addr, addrs, content, Holds, HoldsAll}

-- The contents in the order of a walk from the root, each with the number of those above it; a file
-- has nothing below.
unfoldable mutual
  pub outline : ℕ → Tree → List (ℕ × FileContent)
  outline above (node a file net nm ks) = (above, content file net nm ks) ∷ []
  outline above (node a directory net nm ks) =
      (above, content directory net nm ks) ∷ outlines (suc above) ks

  pub outlines : ℕ → Forest → List (ℕ × FileContent)
  outlines above nil = []
  outlines above (cons t ts) = outline above t ++ outlines above ts

-- What a content looks like: a column for each one above it, and its branch.
abbrev columns : ℕ → Bytes
columns zero = []
columns (suc n) = codes "|     " ++ columns n

abbrev branch : FileType → Bytes
branch directory = codes "|_____Folder ["
branch file = codes "|_____File ["

abbrev shown : ℕ → FileContent → Bytes
shown above c = columns above ++ (branch c.type ++ (c.name ++ codes "]\n"))

unfoldable pub text : List (ℕ × FileContent) → Bytes
text [] = []
text ((above, c) ∷ rest) = shown above c ++ text rest

indent-columns : (n : ℕ) → indent n ≡ columns n
unfolding indent
indent-columns zero = refl
indent-columns (suc n) = ap (λ bs. codes "|     " ++ bs) (indent-columns n)

branch-lem :
    (t : FileType) (rest : Bytes)
    → b'|'
        ∷ (replicate 5 b'_' ++ ((if is_file t then codes "File [" else codes "Folder [") ++ rest))
      ≡ branch t ++ rest
branch-lem directory rest = refl
branch-lem file rest = refl

-- The line that is printed at a depth is that content.
line-shown : (n : ℕ) (c : FileContent) → suc n < 2 ^ 32 → line (suc n) c ≡ shown n c
unfolding line
line-shown n c l =
    let left : rounds (suc n) ≡ n = omega arith in
    rw (left, indent-columns n)
      (ap (λ bs. columns n ++ bs) (branch-lem c.type (c.name ++ codes "]\n")))

text-append : (xs ys : List (ℕ × FileContent)) → text (xs ++ ys) ≡ text xs ++ text ys
unfolding text
text-append [] ys = refl
text-append ((above, c) ∷ xs) ys =
    ap (λ bs. shown above c ++ bs) (text-append xs ys)
    ∙ sym (append_assoc (shown above c) (text xs) (text ys))

module _ (h : Store) where
  formatter-suc :
      (k : ℕ) (p : Ptr) (level : ℕ) {c : FileContent}
      → h p ≡ some c
      → file_formatter (suc k) h p level ≡ (
          let children =
            format_children (λ q. file_formatter k h q ((level + 1) % 2 ^ 32)) c.contents in
          if is_file c.type
          then ok (line level c)
          else children >>= λ rest. ok (line level c ++ rest))
  unfolding file_formatter
  formatter-suc k p level held = rw (load-eq-ok h p held)

  format-nil : (f : Ptr → Outcome Bytes) → format_children f [] ≡ ok []
  unfolding format_children
  format-nil f = refl

  format-cons :
      (f : Ptr → Outcome Bytes) (p : Ptr) (ps : List Ptr) {s t : Bytes}
      → f p ≡ ok s
      → format_children f ps ≡ ok t
      → format_children f (p ∷ ps) ≡ ok (s ++ t)
  unfolding format_children
  format-cons f p ps first rest = rw (first, rest)

  text-line :
      (above : ℕ) (c : FileContent) (rest : List (ℕ × FileContent))
      → suc above < 2 ^ 32
      → text ((above, c) ∷ rest) ≡ line (suc above) c ++ text rest
  unfolding text
  text-line above c rest l = rw (line-shown above c l) refl

  text-one :
      (above : ℕ) (c : FileContent)
      → suc above < 2 ^ 32
      → text ((above, c) ∷ []) ≡ line (suc above) c
  unfolding text
  text-one above c l = append-nil (shown above c) ∙ sym (line-shown above c l)

  text-nil : text [] ≡ []
  unfolding text
  text-nil = refl

  mutual
    unfolding outline depth

    formatter-text :
        (t : Tree) (k above : ℕ)
        → depth t ≤ k
        → suc (above + depth t) < 2 ^ 32
        → Holds h t
        → file_formatter k h (addr t) (suc above) ≡ ok (text (outline above t))
    formatter-text (node a ty net nm ks) zero above le small held = absurd (omega arith)
    formatter-text (node a file net nm ks) (suc k) above le small held =
        let one = text-one above (content file net nm ks) (omega arith) in
        rw (formatter-suc k a (suc above) held.0, one) refl
    formatter-text (node a directory net nm ks) (suc k) above le small held =
        let below : (suc above + 1) % 2 ^ 32 ≡ suc (suc above) = omega arith in
        let whole =
          text-line above (content directory net nm ks) (outlines (suc above) ks) (omega arith) in
        rw
          (
            formatter-suc k a (suc above) held.0,
            below,
            children-text ks k (suc above) (omega arith) (omega arith) held.1,
            whole,
          )
          refl

    children-text :
        (ts : Forest) (k above : ℕ)
        → depths ts ≤ k
        → suc (above + depths ts) < 2 ^ 32
        → HoldsAll h ts
        → format_children (λ q. file_formatter k h q (suc above)) (addrs ts)
          ≡ ok (text (outlines above ts))
    children-text nil k above le small held = rw (format-nil, text-nil)
    children-text (cons t ts) k above le small held =
        format-cons (λ q. file_formatter k h q (suc above)) (addr t) (addrs ts)
          (formatter-text t k above (omega arith) (omega arith) held.0)
          (children-text ts k above (omega arith) (omega arith) held.1)
        ∙ ap ok (sym (text-append (outline above t) (outlines above ts)))
