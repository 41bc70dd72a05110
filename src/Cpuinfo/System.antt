-- ===== src/Cpuinfo/System.antt =====
-- `GetSystemInfo` of src/runtime/parser_cpuinfo.cpp on what Linux prints.
use guthi_core.Base.{
  ℕ, suc, ◌+◌, ◌*◌, ◌%◌, ◌^◌, ◌≤◌, ◌<◌, ◌≡◌, refl, sym, ap, ◌∙◌, Bool, true, List, [], ◌∷◌, arith,
  ltb, if◌then◌else◌, Bytes, All, length,
}
use guthi_core.Base.Runs.{ok}
use guthi_core.Cpuinfo.Available.{max_text, parse_maximum_cpu_hz-max_text}
use guthi_core.Cpuinfo.Digits.{IsNumber}
use guthi_core.Cpuinfo.Lines.{
  Frequency, IsFrequency, cpu_text, with_frequency, with_frequencies, parse_cpu_info-cpu_text,
}
use guthi_core.Cpuinfo.Memory.{parse_maximum_cpu_hz, read_buffer, CommandOutput, get_system_info}
use guthi_core.Cpuinfo.Parse.{Parser, ProcessorStatus, parse_cpu_info}
use guthi_core.Cpuinfo.Tokens.{decimal}

-- The total frequency, for every processor that is counted.
abbrev pub with_total : ProcessorStatus → ℕ → ProcessorStatus
with_total s mhz = record s {
  processors = λ i.
      if ltb i s.processor_count
      then record (s.processors i) { total_mhz = mhz }
      else s.processors i;
}

with_frequencies-count :
    (fs : List Frequency) (s : ProcessorStatus) (index : ℕ)
    → s.processor_count + length fs < 2 ^ 32
    → (with_frequencies s index fs).processor_count ≡ s.processor_count + length fs
with_frequencies-count [] s index h = omega arith
with_frequencies-count (f ∷ fs) s index h =
    let one : (s.processor_count + 1) % 2 ^ 32 ≡ s.processor_count + 1 = omega arith in
    with_frequencies-count fs (with_frequency s index f) (suc index) (omega arith) ∙ omega arith

abbrev cpu_parser : CommandOutput → Bytes → Parser
cpu_parser c bs = record { tokenizer = record c.unset { ptr = bs }; is_parsing = true }

abbrev max_parser : Parser → Bool → Bytes → Parser
max_parser p b bs = record { tokenizer = record p.tokenizer { ptr = bs }; is_parsing = b }

get_system_info-ok :
    (k : ℕ) (c : CommandOutput) (s : ProcessorStatus) {p q : Parser} {s' t : ProcessorStatus}
    {i : ℕ}
    → parse_cpu_info k (cpu_parser c (read_buffer c.cpu_noise c.cpu_mhz)) s ≡ ok (p, s', i)
    → parse_maximum_cpu_hz k (max_parser p p.is_parsing (read_buffer c.max_noise c.max_mhz)) s'
      ≡ ok (q, t)
    → get_system_info k c s ≡ ok t
unfolding get_system_info
get_system_info-ok k c s first second = rw (first, second) refl

-- If the buffers that `GetSystemInfo` reads hold lines for at most 64 processors, and a line for the
-- greatest frequency, each with two bytes 0 behind, and no processor is counted before, then it
-- enters the frequency of each line, in front of its point, for one processor, and the greatest one
-- for all of them; the number of rounds given is enough for each of its loops.
pub get_system_info-texts :
    (fs : List Frequency) (n k : ℕ) (ds es rest rest' : Bytes) (c : CommandOutput)
    (s : ProcessorStatus)
    → All IsFrequency fs
    → IsNumber ds
    → IsNumber es
    → decimal ds < 2 ^ 31
    → length fs ≤ 64
    → s.processor_count ≡ 0
    → read_buffer c.cpu_noise c.cpu_mhz ≡ cpu_text fs (0 ∷ 0 ∷ rest)
    → read_buffer c.max_noise c.max_mhz ≡ max_text n ds es (0 ∷ 0 ∷ rest')
    → get_system_info (2 * length fs + 3 + k) c s
      ≡ ok (with_total (with_frequencies s 0 fs) (decimal ds))
get_system_info-texts fs n k ds es rest rest' c s a d e small h none_yet cpu max =
    let fuel = 2 * length fs + 3 + k in
    let cpu_fuel : 2 * length fs + 1 + (2 + k) ≡ fuel = omega arith in
    let max_fuel : suc (suc (suc (2 * length fs + k))) ≡ fuel = omega arith in
    let s' = with_frequencies s 0 fs in
    let counted = with_frequencies-count fs s 0 (omega arith) in
    let (p, first, parsing) = parse_cpu_info-cpu_text fs (2 + k) rest c.unset s a h in
    let (q, second) =
      parse_maximum_cpu_hz-max_text n (2 * length fs + k) ds es rest' p.tokenizer s' d e small
        (omega arith) in
    get_system_info-ok fuel c s
      (ap (λ j. parse_cpu_info j (cpu_parser c (read_buffer c.cpu_noise c.cpu_mhz)) s)
          (sym cpu_fuel)
        ∙ ap (λ bs. parse_cpu_info (2 * length fs + 1 + (2 + k)) (cpu_parser c bs) s) cpu
        ∙ first)
      (ap (λ b. parse_maximum_cpu_hz fuel (max_parser p b (read_buffer c.max_noise c.max_mhz)) s')
          parsing
        ∙ ap
            (λ j. parse_maximum_cpu_hz j (max_parser p true (read_buffer c.max_noise c.max_mhz)) s')
            (sym max_fuel)
        ∙ ap
            (λ bs.
              parse_maximum_cpu_hz (suc (suc (suc (2 * length fs + k)))) (max_parser p true bs) s')
            max
        ∙ second)
