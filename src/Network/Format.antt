-- ===== src/Network/Format.antt =====
-- `FileFormatter` and `operator<<` of src/filesystem/network_fs.hpp: the tree as text, a line for
-- each file and folder.
pub mod Outline
use guthi_core.Base.{
  ℕ, zero, suc, ◌+◌, ◌-◌, ◌%◌, ◌^◌, List, [], ◌∷◌, ◌++◌, if◌then◌else◌, Bytes, codes, replicate,
}
use guthi_core.Network.{Ptr, is_file, FileContent, Store, load}
use guthi_core.Base.Runs.{Outcome, ok, out_of_fuel, ◌>>=◌}

-- `depth - 1` in uint32_t
abbrev pub rounds : ℕ → ℕ
rounds depth = (depth + 2 ^ 32 - 1) % 2 ^ 32

-- The loop that indents, for the rounds left.
unfoldable pub indent : ℕ → Bytes
indent zero = []
indent (suc n) = b'|' ∷ (replicate 5 b' ' ++ indent n)

-- One line: the indentation, the branch, the type and the name.
unfoldable pub line : ℕ → FileContent → Bytes
unfolding indent
line depth c =
    indent (rounds depth)
    ++ (b'|'
        ∷ (replicate 5 b'_'
            ++ ((if is_file c.type then codes "File [" else codes "Folder [")
                ++ (c.name ++ codes "]\n"))))

unfoldable pub format_children : (Ptr → Outcome Bytes) → List Ptr → Outcome Bytes
format_children format [] = ok []
format_children format (p ∷ ps) = do
  first ← format p
  rest ← format_children format ps
  ok (first ++ rest)

-- `FileFormatter`; the fuel is the depth of the tree. What a file holds is not printed.
unfoldable pub file_formatter : ℕ → Store → Ptr → ℕ → Outcome Bytes
unfolding format_children line load
file_formatter zero h p depth = out_of_fuel
file_formatter (suc k) h p depth = do
  c ← load h p
  let children = format_children (λ q. file_formatter k h q ((depth + 1) % 2 ^ 32)) c.contents
  if is_file c.type then ok (line depth c) else (do rest ← children; ok (line depth c ++ rest))

-- `operator<<`
unfoldable pub print : ℕ → Store → Ptr → Outcome Bytes
unfolding file_formatter
print k h p = file_formatter k h p 1
