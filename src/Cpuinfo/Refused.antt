-- ===== src/Cpuinfo/Refused.antt =====
-- Where the loop of `parse_cpu_info` of src/runtime/parser_cpuinfo.cpp never ends.
use guthi_core.Base.{ℕ, zero, suc, ◌≡◌, ◌⊎◌, refl, inl, inr, true, false, some}
use guthi_core.Base.Runs.{ok, out_of_fuel}
use guthi_core.Cpuinfo.Parse.{
  ProcessorStatus, advance, accept_token, accept_others, cpu_round, cpu_loop, parse_cpu_info,
}
use guthi_core.Cpuinfo.Tokens.{
  TokenType, token_mhz, token_max, token_mem_available, Tokenizer, tokenize,
}

-- The types that no branch of the loop of `parse_cpu_info` accepts.
abbrev pub IsRefused : TokenType → Type 0
IsRefused type = (type ≡ token_mhz) ⊎ (type ≡ token_max) ⊎ (type ≡ token_mem_available)

cpu_round-refused :
    (u : Tokenizer) (s : ProcessorStatus) (index : ℕ)
    → IsRefused u.type
    → cpu_round (record { tokenizer = u; is_parsing = true }, s, index)
      ≡ ok (false, (record { tokenizer = u; is_parsing = true }, s, index))
unfolding cpu_round accept_others accept_token
cpu_round-refused u s index (inl e) = rw e refl
cpu_round-refused u s index (inr (inl e)) = rw e refl
cpu_round-refused u s index (inr (inr e)) = rw e refl

cpu_loop-refused :
    (k : ℕ) (u : Tokenizer) (s : ProcessorStatus) (index : ℕ)
    → IsRefused u.type
    → cpu_loop k (record { tokenizer = u; is_parsing = true }, s, index) ≡ out_of_fuel
unfolding cpu_loop
cpu_loop-refused zero u s index h = refl
cpu_loop-refused (suc k) u s index h =
    rw (cpu_round-refused u s index h) (cpu_loop-refused k u s index h)

-- If the first token is `MHz`, `max` or `MemAvailable`, `parse_cpu_info` never ends: no number of
-- rounds is enough.
pub parse_cpu_info-refused :
    (k : ℕ) (t t' : Tokenizer) (s : ProcessorStatus)
    → tokenize t.ptr t ≡ some t'
    → IsRefused t'.type
    → parse_cpu_info k (record { tokenizer = t; is_parsing = true }) s ≡ out_of_fuel
unfolding parse_cpu_info
parse_cpu_info-refused k t t' s e h = rw (advance, e) (cpu_loop-refused k t' s 0 h)
