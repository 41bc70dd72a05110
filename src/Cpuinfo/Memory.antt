-- ===== src/Cpuinfo/Memory.antt =====
-- The parsers of src/runtime/parser_cpuinfo.cpp for the greatest frequency and for the memory, and
-- `GetSystemInfo`.
use guthi_core.Base.{
  ℕ, zero, suc, ◌*◌, ◌%◌, ◌^◌, Bool, true, false, not, ltb, if◌then◌else◌, Bytes, [], ◌∷◌, ◌++◌,
  take, drop, length,
}
use guthi_core.Base.Runs.{Outcome, ok, fault, out_of_fuel, ◌>>=◌}
use guthi_core.Cpuinfo.Parse.{
  Parser, ProcessorStatus, advance, accept_token, expect_token, to_int, accept_others,
  parse_cpu_info,
}
use guthi_core.Cpuinfo.Tokens.{
  token_cpu, token_mhz, token_max, token_mem_available, token_number, token_integer, token_colon,
  token_end, Tokenizer,
}

-- The branch of `parse_maximum_cpu_hz` behind the token `cpu`: the frequency read last.
unfoldable pub max_line : Parser × ℕ → Outcome (Parser × ℕ)
unfolding accept_token expect_token
max_line (p, value) = do
  (is_max, p) ← accept_token p token_max
  if not is_max then ok (p, value) else do
    (is_mhz, p) ← accept_token p token_mhz
    if not is_mhz then ok (p, value) else do
      (is_colon, p) ← expect_token p token_colon
      if not is_colon
          then ok (p, value)
          else do mhz ← to_int p.tokenizer.value; (_, p) ← expect_token p token_number; ok (p, mhz)

unfoldable pub max_round : Parser × ℕ → Outcome (Bool × (Parser × ℕ))
unfolding accept_token max_line accept_others
max_round (p, value) = do
  (is_cpu, p) ← accept_token p token_cpu
  if is_cpu
      then (max_line (p, value) >>= λ r. ok (false, r))
      else do (left, p) ← accept_others p; ok (left, (p, value))

unfoldable pub max_loop : ℕ → Parser × ℕ → Outcome (Parser × ℕ)
unfolding max_round
max_loop zero s = out_of_fuel
max_loop (suc k) s =
    if not s.0.is_parsing
    then ok s
    else (max_round s >>= λ r. if r.0 then ok r.1 else max_loop k r.1)

-- The loop over the processors behind it; there are 64 at most.
abbrev pub set_total : ProcessorStatus → ℕ → Outcome ProcessorStatus
set_total s value =
    if ltb 64 s.processor_count
    then fault
    else ok (record s {
      processors = λ i.
          if ltb i s.processor_count
          then record (s.processors i) { total_mhz = value }
          else s.processors i;
    })

unfoldable pub parse_maximum_cpu_hz :
    ℕ → Parser → ProcessorStatus → Outcome (Parser × ProcessorStatus)
unfolding advance max_loop
parse_maximum_cpu_hz k p s = do
  q ← advance p
  (q, value) ← max_loop k (q, 0)
  s ← set_total s value
  ok (q, s)

-- The body of the loop of `parse_memory_free_space`.
unfoldable pub memory_round : Parser × ℕ → Outcome (Bool × (Parser × ℕ))
unfolding accept_token expect_token
memory_round (p, value) = do
  (is_available, p) ← accept_token p token_mem_available
  if is_available
      then (do
        (is_colon, p) ← expect_token p token_colon
        if not is_colon then ok (false, (p, value)) else do
          value ← to_int p.tokenizer.value
          (_, p) ← expect_token p token_integer
          ok (false, (p, value)))
      else do (left, p) ← accept_token p token_end; ok (left, (p, value))

unfoldable pub memory_loop : ℕ → Parser × ℕ → Outcome (Parser × ℕ)
unfolding memory_round
memory_loop zero s = out_of_fuel
memory_loop (suc k) s =
    if not s.0.is_parsing
    then ok s
    else (memory_round s >>= λ r. if r.0 then ok r.1 else memory_loop k r.1)

-- `parse_memory_free_space`: the available memory in bytes.
unfoldable pub parse_memory_free_space : ℕ → Parser → Outcome (Parser × ℕ)
unfolding advance memory_loop
parse_memory_free_space k p = do
  q ← advance p
  (q, value) ← memory_loop k (q, 0)
  ok (q, (value * 1024) % 2 ^ 64)

-- The buffer behind `read`: the bytes read, what `new` left behind them, and the last byte 0.
unfoldable pub read_buffer : Bytes → Bytes → Bytes
read_buffer noise output = take 1024 (take 1024 output ++ drop (length output) noise) ++ 0 ∷ []

-- What the two commands print, what `new` leaves in their buffers, and the parser's first contents.
pub record CommandOutput : Type 0 where
  pub cpu_mhz : Bytes
  pub cpu_noise : Bytes
  pub max_mhz : Bytes
  pub max_noise : Bytes
  pub unset : Tokenizer

-- `GetSystemInfo`; the fuel is that of each of its loops.
unfoldable pub get_system_info : ℕ → CommandOutput → ProcessorStatus → Outcome ProcessorStatus
unfolding parse_maximum_cpu_hz
get_system_info k c s = do
  (p, s, _) ←
      parse_cpu_info k
        (record {
          tokenizer = record c.unset { ptr = read_buffer c.cpu_noise c.cpu_mhz };
          is_parsing = true;
        })
        s
  (_, s) ←
      parse_maximum_cpu_hz k
        (record p { tokenizer = record p.tokenizer { ptr = read_buffer c.max_noise c.max_mhz } }) s
  ok s

-- `GetMemoryInfo`, of what its command prints, what `new` leaves in the buffer, and the parser's first
-- contents; the result is `available_ram`.
unfoldable pub get_memory_info : ℕ → Bytes → Bytes → Tokenizer → Outcome ℕ
unfolding parse_memory_free_space
get_memory_info k output noise unset = do
  r ←
      parse_memory_free_space k
        (record { tokenizer = record unset { ptr = read_buffer noise output }; is_parsing = true })
  ok r.1
