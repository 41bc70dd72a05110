-- ===== src/Cpuinfo/Parse.antt =====
-- The parsers of src/runtime/parser_cpuinfo.cpp, for processors and for memory.
use guthi_core.Base.{
  ℕ, zero, suc, ◌+◌, ◌%◌, ◌^◌, Bool, true, false, not, Option, none, some, ltb, ◌==◌, if◌then◌else◌,
}
use guthi_core.Base.Runs.{Outcome, ok, fault, out_of_fuel, ◌>>=◌}
use guthi_core.Cpuinfo.Tokens.{
  TokenType, token_cpu, token_mhz, token_id, token_number, token_colon, token_end, type_code,
  Tokenizer, tokenize,
}

pub record Parser : Type 0 where
  pub tokenizer : Tokenizer
  pub is_parsing : Bool

pub record ProcessorInfo : Type 0 where
  pub processor_number : ℕ
  pub current_mhz : ℕ
  pub total_mhz : ℕ

-- The array of 64 processors by its indices.
pub record ProcessorStatus : Type 0 where
  pub processor_count : ℕ
  pub processors : ℕ → ProcessorInfo

-- `tokenize(&parser->tokenizer)`
unfoldable pub advance : Parser → Outcome Parser
advance p = elim (tokenize p.tokenizer.ptr p.tokenizer) [
  | none ↦ fault
  | some t ↦ ok (record p { tokenizer = t })
]

unfoldable pub get_token : Parser → Outcome Parser
unfolding advance
get_token p = advance p >>= λ q. ok (record q { is_parsing = true })

unfoldable pub accept_token : Parser → TokenType → Outcome (Bool × Parser)
unfolding get_token
accept_token p type =
    if type_code p.tokenizer.type == type_code type
    then (get_token p >>= λ q. ok (true, q))
    else ok (false, p)

unfoldable pub expect_token : Parser → TokenType → Outcome (Bool × Parser)
unfolding accept_token
expect_token p type =
    accept_token p type >>= λ r. if r.0 then ok r else ok (false, record r.1 { is_parsing = false })

-- The conversion of the double to int: undefined if there is no value, or one too large.
abbrev pub to_int : Option ℕ → Outcome ℕ
to_int none = fault
to_int (some n) = if ltb n (2 ^ 31) then ok n else fault

-- The branches of the loops that only accept a token; the result is whether the loop is left.
unfoldable pub accept_others : Parser → Outcome (Bool × Parser)
unfolding accept_token
accept_others p = do
  (is_id, p) ← accept_token p token_id
  if is_id then ok (false, p) else do
    (is_colon, p) ← accept_token p token_colon
    if is_colon then ok (false, p) else do
      (is_number, p) ← accept_token p token_number
      if is_number then ok (false, p) else accept_token p token_end

-- The parser, the processors, and the index of the next one.
abbrev pub CpuState : Type 0
CpuState = Parser × ProcessorStatus × ℕ

-- `processors[index]` is written; there are 64.
abbrev pub add_processor : ProcessorStatus → ℕ → ℕ → Outcome ProcessorStatus
add_processor s index mhz =
    if ltb 63 index
    then fault
    else ok (record s {
      processor_count = (s.processor_count + 1) % 2 ^ 32;
      processors = λ i.
          if i == index
          then record (s.processors i) { processor_number = index; current_mhz = mhz }
          else s.processors i;
    })

-- The branch of `parse_cpu_info` behind the token `cpu`.
unfoldable pub cpu_line : CpuState → Outcome CpuState
unfolding accept_token expect_token
cpu_line (p, s, index) = do
  (is_mhz, p) ← accept_token p token_mhz
  if not is_mhz then ok (p, s, index) else do
    (is_colon, p) ← expect_token p token_colon
    if not is_colon then ok (p, s, index) else do
      mhz ← to_int p.tokenizer.value
      (is_number, p) ← expect_token p token_number
      if not is_number
          then ok (p, s, index)
          else do s ← add_processor s index mhz; ok (p, s, suc index)

-- The body of its loop; the result is whether the loop is left.
unfoldable pub cpu_round : CpuState → Outcome (Bool × CpuState)
unfolding accept_token cpu_line accept_others
cpu_round (p, s, index) = do
  (is_cpu, p) ← accept_token p token_cpu
  if is_cpu
      then (cpu_line (p, s, index) >>= λ r. ok (false, r))
      else do (left, p) ← accept_others p; ok (left, (p, s, index))

unfoldable pub cpu_loop : ℕ → CpuState → Outcome CpuState
unfolding cpu_round
cpu_loop zero s = out_of_fuel
cpu_loop (suc k) s =
    if not s.0.is_parsing
    then ok s
    else (cpu_round s >>= λ r. if r.0 then ok r.1 else cpu_loop k r.1)

-- `parse_cpu_info`; the fuel bounds the rounds of its loop.
unfoldable pub parse_cpu_info : ℕ → Parser → ProcessorStatus → Outcome CpuState
unfolding cpu_loop advance
parse_cpu_info k p s = advance p >>= λ q. cpu_loop k (q, s, 0)
