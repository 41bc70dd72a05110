-- ===== src/Cpuinfo/Lines.antt =====
-- The lines of /proc/cpuinfo with a frequency, as `parse_cpu_info` of src/runtime/parser_cpuinfo.cpp
-- reads them.
use guthi_core.Base.{
  ℕ, suc, ◌+◌, ◌*◌, ◌%◌, ◌^◌, ◌≤◌, ◌<◌, ◌≡◌, refl, sym, ap, ◌∙◌, Bool, true, false, Option, some,
  List, [], ◌∷◌, ◌++◌, arith, ltb, ◌==◌, if◌then◌else◌, Bytes, All, length, codes, equal,
}
use guthi_core.Base.Runs.{ok}
use guthi_core.Cpuinfo.Digits.{IsNumber, tokenize-number}
use guthi_core.Cpuinfo.Parse.{
  Parser, ProcessorStatus, advance, get_token, accept_token, expect_token, to_int, accept_others,
  cpu_line, cpu_round, cpu_loop, parse_cpu_info,
}
use guthi_core.Cpuinfo.Tokens.{
  TokenType, token_cpu, token_colon, token_number, token_end, Tokenizer, type_code, span, strtoull,
  decimal, tokenize,
}

-- The digits of a frequency in front of its point and behind it.
abbrev pub Frequency : Type 0
Frequency = Bytes × Bytes

-- Behind `cpu`: ` MHz`, two tabs, a colon, a blank, the frequency, and a line feed.
abbrev behind_cpu : Frequency → Bytes → Bytes
behind_cpu (ds, fs) more = 32 ∷ 77 ∷ 72 ∷ 122 ∷ 9 ∷ 9 ∷ 58 ∷ 32 ∷ (ds ++ 46 ∷ (fs ++ 10 ∷ more))

-- A line for each frequency, and the bytes behind them.
abbrev pub cpu_text : List Frequency → Bytes → Bytes
cpu_text [] rest = rest
cpu_text (f ∷ fs) rest = 99 ∷ 112 ∷ 117 ∷ behind_cpu f (cpu_text fs rest)

-- Numbers, the first small enough for an int.
abbrev pub IsFrequency : Frequency → Type 0
IsFrequency (ds, fs) = IsNumber ds × IsNumber fs × (decimal ds < 2 ^ 31)

-- What a line adds to the processors.
abbrev pub with_frequency : ProcessorStatus → ℕ → Frequency → ProcessorStatus
with_frequency s index f = record s {
  processor_count = (s.processor_count + 1) % 2 ^ 32;
  processors = λ i.
      if i == index
      then record (s.processors i) { processor_number = index; current_mhz = decimal f.0 }
      else s.processors i;
}

abbrev pub with_frequencies : ProcessorStatus → ℕ → List Frequency → ProcessorStatus
with_frequencies s index [] = s
with_frequencies s index (f ∷ fs) = with_frequencies (with_frequency s index f) (suc index) fs

abbrev at_cpu : Frequency → Bytes → Option ℕ → Bool → Parser
at_cpu f more value b = record {
  tokenizer = record { ptr = behind_cpu f more; type = token_cpu; value = value; id = codes "cpu" };
  is_parsing = b;
}

abbrev behind_line : Frequency → Bytes → Parser
behind_line f more = record {
  tokenizer = record {
    ptr = 10 ∷ more;
    type = token_number;
    value = some (strtoull f.1);
    id = codes ":";
  };
  is_parsing = true;
}

pub to_int-strtoull :
    (ds : Bytes) → decimal ds < 2 ^ 31 → to_int (some (strtoull ds)) ≡ ok (decimal ds)
to_int-strtoull ds h =
    let same : strtoull ds ≡ decimal ds = omega arith in
    let small : ltb (decimal ds) (2 ^ 31) ≡ true = ground arith in rw (same, small) refl

pub expect_token-next :
    (t : Tokenizer) (type : TokenType) (b : Bool) {t' : Tokenizer}
    → tokenize t.ptr t ≡ some t'
    → (type_code t.type == type_code type) ≡ true
    → expect_token (record { tokenizer = t; is_parsing = b }) type
      ≡ ok (true, record { tokenizer = t'; is_parsing = true })
unfolding expect_token accept_token get_token advance
expect_token-next t type b e same = rw (same, get_token, advance, e) refl

cpu_round-line :
    (f : Frequency) (more : Bytes) (value : Option ℕ) (s : ProcessorStatus) (index : ℕ)
    → IsFrequency f
    → index < 64
    → cpu_round (at_cpu f more value true, s, index)
      ≡ ok (false, (behind_line f more, with_frequency s index f, suc index))
unfolding cpu_round cpu_line accept_token expect_token get_token advance tokenize span equal
cpu_round-line (ds, fs) more value s index (d, e, small) h =
    let fits : ltb 63 index ≡ false = ground arith in
    let colon : Tokenizer = record {
      ptr = 32 ∷ (ds ++ 46 ∷ (fs ++ 10 ∷ more));
      type = token_colon;
      value = value;
      id = codes ":";
    } in
    let number : Tokenizer = record {
      ptr = 46 ∷ (fs ++ 10 ∷ more);
      type = token_number;
      value = some (strtoull ds);
      id = codes ":";
    } in
    rw
      (
        expect_token-next colon token_colon true
            (tokenize-number ds (fs ++ 10 ∷ more) 46 colon d refl) refl,
        to_int-strtoull ds small,
        expect_token-next number token_number true (tokenize-number fs more 10 number e refl) refl,
        fits,
      )
      refl

-- Behind a line, the next round goes on to the token that follows.
cpu_round-line_feed :
    (f : Frequency) (more : Bytes) (s : ProcessorStatus) (index : ℕ) {t : Tokenizer}
    → tokenize more (behind_line f more).tokenizer ≡ some t
    → cpu_round (behind_line f more, s, index)
      ≡ ok (false, (record { tokenizer = t; is_parsing = true }, s, index))
unfolding cpu_round accept_others accept_token get_token advance tokenize
cpu_round-line_feed f more s index next = rw next refl

-- The token in front of the lines that are left.
abbrev next_token : List Frequency → Bytes → Option ℕ → Bytes → Tokenizer
next_token [] rest value id = record { ptr = 0 ∷ rest; type = token_end; value = value; id = id }
next_token (f ∷ fs) rest value id = record {
  ptr = behind_cpu f (cpu_text fs (0 ∷ 0 ∷ rest));
  type = token_cpu;
  value = value;
  id = codes "cpu";
}

tokenize-cpu_text :
    (fs : List Frequency) (rest : Bytes) (t : Tokenizer)
    → tokenize (cpu_text fs (0 ∷ 0 ∷ rest)) t ≡ some (next_token fs rest t.value t.id)
unfolding tokenize span equal
tokenize-cpu_text [] rest t = refl
tokenize-cpu_text (f ∷ fs) rest t = refl

-- Two rounds for each line, one for the end, and `k` more.
abbrev rounds : List Frequency → ℕ → ℕ
rounds [] k = suc k
rounds (f ∷ fs) k = suc (suc (rounds fs k))

abbrev at_token : List Frequency → Bytes → Option ℕ → Bytes → Parser
at_token fs rest value id = record { tokenizer = next_token fs rest value id; is_parsing = true }

cpu_loop-end :
    (k : ℕ) (rest id : Bytes) (value : Option ℕ) (s : ProcessorStatus) (index : ℕ)
    → (p : Parser) × (cpu_loop (suc k) (at_token [] rest value id, s, index) ≡ ok (p, s, index))
      × (p.is_parsing ≡ true)
unfolding cpu_loop cpu_round accept_others accept_token get_token advance tokenize
cpu_loop-end k rest id value s index = (
  record {
    tokenizer = record { ptr = rest; type = token_end; value = value; id = id };
    is_parsing = true;
  },
  refl,
  refl,
)

cpu_loop-line :
    (f : Frequency) (fs : List Frequency) (k : ℕ) (rest id : Bytes) (value : Option ℕ)
    (s : ProcessorStatus) (index : ℕ)
    → IsFrequency f
    → index < 64
    → cpu_loop (suc (suc k)) (at_token (f ∷ fs) rest value id, s, index)
      ≡ cpu_loop k
          (at_token fs rest (some (strtoull f.1)) (codes ":"), with_frequency s index f, suc index)
unfolding cpu_loop
cpu_loop-line f fs k rest id value s index a h =
    let more = cpu_text fs (0 ∷ 0 ∷ rest) in
    rw
      (
        cpu_round-line f more value s index a h,
        cpu_round-line_feed f more (with_frequency s index f) (suc index)
            (tokenize-cpu_text fs rest (behind_line f more).tokenizer),
      )
      refl

cpu_loop-lines :
    (fs : List Frequency) (k : ℕ) (rest id : Bytes) (value : Option ℕ) (s : ProcessorStatus)
    (index : ℕ)
    → All IsFrequency fs
    → index + length fs ≤ 64
    → (p : Parser) × (cpu_loop (rounds fs k) (at_token fs rest value id, s, index)
        ≡ ok (p, with_frequencies s index fs, index + length fs))
      × (p.is_parsing ≡ true)
cpu_loop-lines [] k rest id value s index a h =
    let (p, e, parsing) = cpu_loop-end k rest id value s index in
    let zero_more : index + 0 ≡ index = omega arith in
    (p, e ∙ ap (λ i. ok (p, s, i)) (sym zero_more), parsing)
cpu_loop-lines (f ∷ fs) k rest id value s index (a, b) h =
    let s' = with_frequency s index f in
    let (p, e, parsing) =
      cpu_loop-lines fs k rest (codes ":") (some (strtoull f.1)) s' (suc index) b (omega arith) in
    let same : suc index + length fs ≡ index + suc (length fs) = omega arith in
    (
      p,
      cpu_loop-line f fs (rounds fs k) rest id value s index a (omega arith)
          ∙ e
          ∙ ap (λ i. ok (p, with_frequencies s' (suc index) fs, i)) same,
      parsing,
    )

rounds-length : (fs : List Frequency) (k : ℕ) → 2 * length fs + 1 + k ≡ rounds fs k
rounds-length [] k = omega arith
rounds-length (f ∷ fs) k = omega (arith, rounds-length fs k)

-- Of a text with a line for each of at most 64 frequencies, each less than 2 ^ 31 in front of its
-- point, and two bytes 0 behind the last, `parse_cpu_info` enters each frequency in front of its
-- point for the processor of its line, and counts them; it ends after two rounds for each line and
-- one more, whatever stands behind the text.
pub parse_cpu_info-cpu_text :
    (fs : List Frequency) (k : ℕ) (rest : Bytes) (t : Tokenizer) (s : ProcessorStatus)
    → All IsFrequency fs
    → length fs ≤ 64
    → (p : Parser) × (parse_cpu_info
          (2 * length fs + 1 + k)
          (record { tokenizer = record t { ptr = cpu_text fs (0 ∷ 0 ∷ rest) }; is_parsing = true })
          s
        ≡ ok (p, with_frequencies s 0 fs, length fs))
      × (p.is_parsing ≡ true)
unfolding parse_cpu_info advance
parse_cpu_info-cpu_text fs k rest t s a h =
    let (p, e, parsing) = cpu_loop-lines fs k rest t.id t.value s 0 a (omega arith) in
    let zero_more : 0 + length fs ≡ length fs = omega arith in
    (
      p,
      rw
          (
            advance,
            tokenize-cpu_text fs rest (record t { ptr = cpu_text fs (0 ∷ 0 ∷ rest) }),
            rounds-length fs k,
          )
          (e ∙ ap (λ i. ok (p, with_frequencies s 0 fs, i)) zero_more),
      parsing,
    )
