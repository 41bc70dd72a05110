-- ===== src/Cpuinfo/Tokens.antt =====
-- The tokenizer of src/runtime/parser_cpuinfo.cpp and src/runtime/parser_cpuinfo.hpp. A pointer into
-- the buffer is the list of the bytes from its place on; none is a read beyond the buffer.
use Prim.Native.Nat.{min}
use guthi_core.Base.{
  ℕ, ◌+◌, ◌-◌, ◌*◌, ◌^◌, Bool, ◌&&◌, ◌||◌, Option, none, some, [], ◌∷◌, leb, ◌==◌, if◌then◌else◌,
  Bytes, codes, equal, map,
}

pub data TokenType : Type 0 where
  token_cpu token_mhz token_max token_mem_available token_kb : TokenType
  token_id token_number token_integer token_float token_colon token_end : TokenType

-- The enumerators' values, to compare types by.
abbrev pub type_code : TokenType → ℕ
type_code token_cpu = 0
type_code token_mhz = 1
type_code token_max = 2
type_code token_mem_available = 3
type_code token_kb = 4
type_code token_id = 5
type_code token_number = 6
type_code token_integer = 7
type_code token_float = 8
type_code token_colon = 9
type_code token_end = 10

-- The value is none until a number has been read.
pub record Tokenizer : Type 0 where
  pub ptr : Bytes
  pub type : TokenType
  pub value : Option ℕ
  pub id : Bytes

abbrev pub is_char : ℕ → Bool
is_char c = leb 65 c && leb c 90 || leb 97 c && leb c 122

abbrev pub is_num : ℕ → Bool
is_num c = leb 48 c && leb c 57

abbrev pub is_word : ℕ → Bool
is_word c = is_char c || c == 95 || is_num c

abbrev pub is_blank : ℕ → Bool
is_blank c = c == 32 || c == 9

abbrev pub to_lower : ℕ → ℕ
to_lower c = if leb 65 c && leb c 90 then c + 32 else c

abbrev pub is_equal_case_insensitive : Bytes → Bytes → Bool
is_equal_case_insensitive s1 s2 = equal (map to_lower s1) (map to_lower s2)

-- The loop over `keywords`.
abbrev pub keyword_or_id : Bytes → TokenType
keyword_or_id word =
    if is_equal_case_insensitive (codes "cpu") word
    then token_cpu
    else if is_equal_case_insensitive (codes "mhz") word
    then token_mhz
    else if is_equal_case_insensitive (codes "max") word
    then token_max
    else if is_equal_case_insensitive (codes "MemAvailable") word
    then token_mem_available
    else token_id

-- A loop over bytes that satisfy a test: those bytes, and the place behind them.
unfoldable pub span : (ℕ → Bool) → Bytes → Option (Bytes × Bytes)
span test [] = none
span test (c ∷ cs) =
    let rest = span test cs in
    if test c then elim rest [ none ↦ none | some (w, r) ↦ some (c ∷ w, r) ] else some ([], c ∷ cs)

unfoldable pub decimal_from : ℕ → Bytes → ℕ
decimal_from n [] = n
decimal_from n (d ∷ ds) = decimal_from (10 * n + (d - 48)) ds

abbrev pub decimal : Bytes → ℕ
decimal ds = decimal_from 0 ds

-- `strtoull` of digits
abbrev pub strtoull : Bytes → ℕ
strtoull ds = min (2 ^ 64 - 1) (decimal ds)

abbrev pub word_token : Tokenizer → Option (Bytes × Bytes) → Option Tokenizer
word_token t none = none
word_token t (some (w, r)) = some (record t { ptr = r; type = keyword_or_id w; id = w })

abbrev pub number_token : Tokenizer → Option (Bytes × Bytes) → Option Tokenizer
number_token t none = none
number_token t (some (ds, r)) =
    some (record t { ptr = r; type = token_number; value = some (strtoull ds) })

-- `tokenize` at a place of the buffer. It returns true whenever it returns.
unfoldable pub tokenize : Bytes → Tokenizer → Option Tokenizer
unfolding span
tokenize [] t = none
tokenize (c ∷ cs) t =
    let skipped = tokenize cs t in
    if c == 0
    then some (record t { ptr = cs; type = token_end })
    else if is_blank c
    then skipped
    else if c == 58
    then some (record t { ptr = cs; type = token_colon; id = codes ":" })
    else if is_char c
    then word_token t (span is_word (c ∷ cs))
    else if is_num c
    then number_token t (span is_num (c ∷ cs))
    else skipped
