-- ===== src/Cpuinfo/Available.antt =====
-- What the parsers of src/runtime/parser_cpuinfo.cpp make of the lines for the greatest frequency and
-- for the memory.
use guthi_core.Base.{
  ℕ, zero, suc, ◌*◌, ◌%◌, ◌^◌, ◌≤◌, ◌<◌, ◌≡◌, refl, ◌∙◌, true, false, some, ◌∷◌, ◌++◌, arith, ltb,
  if◌then◌else◌, Bytes, codes, equal, replicate,
}
use guthi_core.Base.Runs.{ok}
use guthi_core.Cpuinfo.Digits.{IsNumber, tokenize-number}
use guthi_core.Cpuinfo.Lines.{expect_token-next, to_int-strtoull}
use guthi_core.Cpuinfo.Memory.{
  max_line, max_round, max_loop, parse_maximum_cpu_hz, memory_round, memory_loop,
  parse_memory_free_space, read_buffer, get_memory_info,
}
use guthi_core.Cpuinfo.Parse.{
  Parser, ProcessorStatus, advance, get_token, accept_token, expect_token, accept_others,
}
use guthi_core.Cpuinfo.Tokens.{
  token_colon, token_number, token_end, Tokenizer, span, strtoull, decimal, tokenize, is_num,
}

tokenize-blanks :
    (n : ℕ) (bs : Bytes) (t : Tokenizer) → tokenize (replicate n 32 ++ bs) t ≡ tokenize bs t
unfolding tokenize
tokenize-blanks zero bs t = refl
tokenize-blanks (suc n) bs t = tokenize-blanks n bs t

number_behind_blanks :
    (n : ℕ) (ds rest : Bytes) (c : ℕ) (t : Tokenizer)
    → IsNumber ds
    → is_num c ≡ false
    → tokenize (replicate n 32 ++ (ds ++ c ∷ rest)) t
      ≡ some (record t { ptr = c ∷ rest; type = token_number; value = some (strtoull ds) })
number_behind_blanks n ds rest c t d h =
    tokenize-blanks n (ds ++ c ∷ rest) t ∙ tokenize-number ds rest c t d h

-- `MemAvailable:`, blanks, a number, and a byte that is no digit.
abbrev pub memory_text : ℕ → Bytes → ℕ → Bytes → Bytes
memory_text n ds c rest =
    77
    ∷ 101
    ∷ 109
    ∷ 65
    ∷ 118
    ∷ 97
    ∷ 105
    ∷ 108
    ∷ 97
    ∷ 98
    ∷ 108
    ∷ 101
    ∷ 58
    ∷ (replicate n 32 ++ (ds ++ c ∷ rest))

-- The parser of such a text ends in two rounds.
parse_memory_free_space-memory_text :
    (n k : ℕ) (ds rest : Bytes) (c : ℕ) (t : Tokenizer)
    → IsNumber ds
    → decimal ds < 2 ^ 31
    → is_num c ≡ false
    → (p : Parser) × (parse_memory_free_space
          (suc (suc k))
          (record { tokenizer = record t { ptr = memory_text n ds c rest }; is_parsing = true })
        ≡ ok (p, decimal ds * 1024))
unfolding parse_memory_free_space memory_loop memory_round accept_token expect_token get_token
    advance tokenize span equal
parse_memory_free_space-memory_text n k ds rest c t d small h =
    let behind = replicate n 32 ++ (ds ++ c ∷ rest) in
    let number : Tokenizer = record {
      ptr = c ∷ rest;
      type = token_number;
      value = some (strtoull ds);
      id = codes ":";
    } in
    let colon : Tokenizer = record {
      ptr = behind;
      type = token_colon;
      value = t.value;
      id = codes ":";
    } in
    let whole : (decimal ds * 1024) % 2 ^ 64 ≡ decimal ds * 1024 = omega arith in
    (
      record { tokenizer = number; is_parsing = false },
      rw
          (
            expect_token-next colon token_colon true (number_behind_blanks n ds rest c colon d h)
                refl,
            to_int-strtoull ds small,
            whole,
          )
          refl,
    )

-- If the buffer that `GetMemoryInfo` reads starts with `MemAvailable:`, blanks and a number less than
-- 2 ^ 31 that ends at a byte that is no digit, the available memory is 1024 times the number, whatever
-- stands behind it; two rounds of its loop are enough.
pub get_memory_info-memory_text :
    (n k : ℕ) (ds rest output noise : Bytes) (c : ℕ) (t : Tokenizer)
    → IsNumber ds
    → decimal ds < 2 ^ 31
    → is_num c ≡ false
    → read_buffer noise output ≡ memory_text n ds c rest
    → get_memory_info (suc (suc k)) output noise t ≡ ok (decimal ds * 1024)
unfolding get_memory_info
get_memory_info-memory_text n k ds rest output noise c t d small h text =
    let (p, done) = parse_memory_free_space-memory_text n k ds rest c t d small h in
    rw (text, done) refl

-- `CPU max MHz:`, blanks, a number, a point, a number, and a line feed.
abbrev pub max_text : ℕ → Bytes → Bytes → Bytes → Bytes
max_text n ds fs rest =
    67
    ∷ 80
    ∷ 85
    ∷ 32
    ∷ 109
    ∷ 97
    ∷ 120
    ∷ 32
    ∷ 77
    ∷ 72
    ∷ 122
    ∷ 58
    ∷ (replicate n 32 ++ (ds ++ 46 ∷ (fs ++ 10 ∷ rest)))

-- Of a text of `CPU max MHz:`, blanks, a number, a point, a number and a line feed, with two bytes 0
-- behind it, `parse_maximum_cpu_hz` enters the number in front of the point, if it is less than
-- 2 ^ 31, for each of the processors that are counted, 64 at most, and changes nothing else of them;
-- three rounds are enough.
pub parse_maximum_cpu_hz-max_text :
    (n k : ℕ) (ds fs rest : Bytes) (t : Tokenizer) (s : ProcessorStatus)
    → IsNumber ds
    → IsNumber fs
    → decimal ds < 2 ^ 31
    → s.processor_count ≤ 64
    → (p : Parser) × (parse_maximum_cpu_hz
          (suc (suc (suc k)))
          (record {
            tokenizer = record t { ptr = max_text n ds fs (0 ∷ 0 ∷ rest) };
            is_parsing = true;
          })
          s
        ≡ ok (
          p,
          record s {
            processors = λ i.
                if ltb i s.processor_count
                then record (s.processors i) { total_mhz = decimal ds }
                else s.processors i;
          },
        ))
unfolding parse_maximum_cpu_hz max_loop max_round max_line accept_others accept_token expect_token
    get_token advance tokenize span equal
parse_maximum_cpu_hz-max_text n k ds fs rest t s d e small h =
    let colon : Tokenizer = record {
      ptr = replicate n 32 ++ (ds ++ 46 ∷ (fs ++ 10 ∷ 0 ∷ 0 ∷ rest));
      type = token_colon;
      value = t.value;
      id = codes ":";
    } in
    let number : Tokenizer = record {
      ptr = 46 ∷ (fs ++ 10 ∷ 0 ∷ 0 ∷ rest);
      type = token_number;
      value = some (strtoull ds);
      id = codes ":";
    } in
    let fits : ltb 64 s.processor_count ≡ false = ground arith in
    (
      record {
        tokenizer = record {
          ptr = rest;
          type = token_end;
          value = some (strtoull fs);
          id = codes ":";
        };
        is_parsing = true;
      },
      rw
          (
            expect_token-next colon token_colon true
                (number_behind_blanks n ds (fs ++ 10 ∷ 0 ∷ 0 ∷ rest) 46 colon d refl) refl,
            to_int-strtoull ds small,
            expect_token-next number token_number true
                (tokenize-number fs (0 ∷ 0 ∷ rest) 10 number e refl) refl,
            fits,
          )
          refl,
    )
