-- ===== src/Cpuinfo/Digits.antt =====
-- Numbers and words between other bytes, as src/runtime/parser_cpuinfo.cpp reads them.
use guthi_core.Base.{ℕ, ◌≤◌, ◌≡◌, refl, true, false, some, [], ◌∷◌, ◌++◌, arith, ◌==◌, Bytes, All}
use guthi_core.Cpuinfo.Tokens.{
  Tokenizer, token_number, is_num, is_blank, is_char, span, strtoull, tokenize,
}

abbrev pub IsDigit : ℕ → Type 0
IsDigit c = (48 ≤ c) × (c ≤ 57)

-- A number: one digit or more.
abbrev pub IsNumber : Bytes → Type 0
IsNumber [] = ⊥
IsNumber (d ∷ ds) = IsDigit d × All IsDigit ds

span-digits :
    (ds rest : Bytes) (c : ℕ)
    → All IsDigit ds
    → is_num c ≡ false
    → span is_num (ds ++ c ∷ rest) ≡ some (ds, c ∷ rest)
unfolding span
span-digits [] rest c a h = rw h refl
span-digits (d ∷ ds) rest c ((l, u), a) h =
    let digit : is_num d ≡ true = ground arith in rw (digit, span-digits ds rest c a h) refl

-- At a number that ends before a byte that is no digit, `tokenize` reads the number.
pub tokenize-number :
    (ds rest : Bytes) (c : ℕ) (t : Tokenizer)
    → IsNumber ds
    → is_num c ≡ false
    → tokenize (ds ++ c ∷ rest) t
      ≡ some (record t { ptr = c ∷ rest; type = token_number; value = some (strtoull ds) })
unfolding tokenize
tokenize-number [] rest c t a h = elim a [ ]
tokenize-number (d ∷ ds) rest c t ((l, u), a) h =
    let none_zero : (d == 0) ≡ false = ground arith in
    let no_blank : is_blank d ≡ false = ground arith in
    let no_colon : (d == 58) ≡ false = ground arith in
    let no_char : is_char d ≡ false = ground arith in
    let digit : is_num d ≡ true = ground arith in
    rw (none_zero, no_blank, no_colon, no_char, digit, span-digits ds rest c a h) refl
