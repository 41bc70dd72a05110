-- ===== src/Cpuinfo/Examples.antt =====
-- src/runtime/parser_cpuinfo.cpp at concrete texts.
use guthi_core.Base.{
  ◌+◌, ◌*◌, ◌≡◌, refl, inl, true, none, some, List, [], ◌∷◌, arith, Bytes, All, length, codes,
  replicate, equal,
}
use guthi_core.Base.Runs.{ok, out_of_fuel}
use guthi_core.Cpuinfo.Available.{
  memory_text, get_memory_info-memory_text, max_text, parse_maximum_cpu_hz-max_text,
}
use guthi_core.Cpuinfo.Digits.{IsNumber}
use guthi_core.Cpuinfo.Refused.{parse_cpu_info-refused}
use guthi_core.Cpuinfo.Lines.{
  IsFrequency, Frequency, cpu_text, with_frequencies, parse_cpu_info-cpu_text,
}
use guthi_core.Cpuinfo.Memory.{
  parse_maximum_cpu_hz, get_memory_info, read_buffer, CommandOutput, get_system_info,
}
use guthi_core.Cpuinfo.Parse.{Parser, ProcessorStatus, parse_cpu_info}
use guthi_core.Cpuinfo.System.{with_total, get_system_info-texts}
use guthi_core.Cpuinfo.Tokens.{
  token_id, token_mhz, Tokenizer, tokenize, span, decimal_from, decimal,
}

abbrev no_processors : ProcessorStatus
no_processors = record {
  processor_count = 0;
  processors = λ i. record { processor_number = 0; current_mhz = 0; total_mhz = 0 };
}

abbrev new_tokenizer : Tokenizer
new_tokenizer = record { ptr = []; type = token_id; value = none; id = [] }

abbrev twenty_four : Bytes
twenty_four = 50 ∷ 52 ∷ []

abbrev two_lines : List Frequency
two_lines = (twenty_four, 53 ∷ []) ∷ (55 ∷ [], 48 ∷ []) ∷ []

twenty_four-IsNumber : IsNumber twenty_four
twenty_four-IsNumber = ((omega arith, omega arith), ((omega arith, omega arith), tt))

five-IsNumber : IsNumber (53 ∷ [])
five-IsNumber = ((omega arith, omega arith), tt)

two_lines-All : All IsFrequency two_lines
unfolding decimal_from
two_lines-All = (
  (twenty_four-IsNumber, five-IsNumber, omega arith),
  ((((omega arith, omega arith), tt), ((omega arith, omega arith), tt), omega arith), tt),
)

parse_cpu_info-cpu_text_test :
    (p : Parser) × (parse_cpu_info
        (2 * length two_lines + 1 + 0)
        (record {
          tokenizer = record new_tokenizer { ptr = cpu_text two_lines (0 ∷ 0 ∷ 99 ∷ []) };
          is_parsing = true;
        })
        no_processors
      ≡ ok (p, with_frequencies no_processors 0 two_lines, 2))
    × (p.is_parsing ≡ true)
parse_cpu_info-cpu_text_test =
    parse_cpu_info-cpu_text two_lines 0 (99 ∷ []) new_tokenizer no_processors two_lines-All
      (omega arith)

memory_buffer :
    read_buffer (replicate 1024 0) (memory_text 3 twenty_four 32 (107 ∷ []))
    ≡ memory_text 3 twenty_four 32 (107 ∷ replicate 1005 0)
unfolding read_buffer
memory_buffer = refl

get_memory_info-memory_text_test :
    get_memory_info 2 (memory_text 3 twenty_four 32 (107 ∷ [])) (replicate 1024 0) new_tokenizer
    ≡ ok (decimal twenty_four * 1024)
unfolding decimal_from
get_memory_info-memory_text_test =
    get_memory_info-memory_text 3 0 twenty_four (107 ∷ replicate 1005 0)
      (memory_text 3 twenty_four 32 (107 ∷ [])) (replicate 1024 0) 32 new_tokenizer
      twenty_four-IsNumber (omega arith) refl memory_buffer

parse_maximum_cpu_hz-max_text_test :
    (p : Parser) × (parse_maximum_cpu_hz 3
        (record {
          tokenizer = record new_tokenizer { ptr = max_text 2 twenty_four (53 ∷ []) (0 ∷ 0 ∷ []) };
          is_parsing = true;
        })
        no_processors
      ≡ ok (p, with_total no_processors (decimal twenty_four)))
unfolding decimal_from
parse_maximum_cpu_hz-max_text_test =
    parse_maximum_cpu_hz-max_text 2 0 twenty_four (53 ∷ []) [] new_tokenizer no_processors
      twenty_four-IsNumber five-IsNumber (omega arith) (omega arith)

mhz_text-tokenize :
    tokenize (codes "MHz ") (record new_tokenizer { ptr = codes "MHz " })
    ≡ some (record { ptr = 32 ∷ []; type = token_mhz; value = none; id = codes "MHz" })
unfolding tokenize span equal
mhz_text-tokenize = refl

parse_cpu_info-refused_example :
    parse_cpu_info 99
      (record { tokenizer = record new_tokenizer { ptr = codes "MHz " }; is_parsing = true })
      no_processors
    ≡ out_of_fuel
parse_cpu_info-refused_example =
    parse_cpu_info-refused 99 (record new_tokenizer { ptr = codes "MHz " })
      (record { ptr = 32 ∷ []; type = token_mhz; value = none; id = codes "MHz" }) no_processors
      mhz_text-tokenize (inl refl)

abbrev zeros : Bytes
zeros = replicate 1024 0

abbrev printed : CommandOutput
printed = record {
  cpu_mhz = cpu_text two_lines [];
  cpu_noise = zeros;
  max_mhz = max_text 2 twenty_four (53 ∷ []) [];
  max_noise = zeros;
  unset = new_tokenizer;
}

cpu_buffer : read_buffer zeros printed.cpu_mhz ≡ cpu_text two_lines (0 ∷ 0 ∷ replicate 992 0)
unfolding read_buffer
cpu_buffer = refl

max_buffer :
    read_buffer zeros printed.max_mhz ≡ max_text 2 twenty_four (53 ∷ []) (0 ∷ 0 ∷ replicate 1004 0)
unfolding read_buffer
max_buffer = refl

get_system_info-texts_example :
    get_system_info (2 * length two_lines + 3 + 0) printed no_processors
    ≡ ok (with_total (with_frequencies no_processors 0 two_lines) (decimal twenty_four))
unfolding decimal_from
get_system_info-texts_example =
    get_system_info-texts two_lines 2 0 twenty_four (53 ∷ []) (replicate 992 0) (replicate 1004 0)
      printed no_processors two_lines-All twenty_four-IsNumber five-IsNumber (omega arith)
      (omega arith) refl cpu_buffer max_buffer
