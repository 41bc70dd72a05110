-- ===== src/SysInfo/Examples.antt =====
-- src/runtime/sys_info.cpp at concrete counters and tables.
use guthi_core.Base.{
  ℕ, ◌+◌, ◌-◌, ◌*◌, ◌^◌, ◌<◌, ◌≤◌, ◌≡◌, refl, ◌⊎◌, none, List, [], ◌∷◌, arith, Bytes, replicate,
  some,
}
use guthi_core.Base.Runs.{ok}
use guthi_core.Cpuinfo.Available.{memory_text}
use guthi_core.Cpuinfo.Digits.{IsNumber}
use guthi_core.Cpuinfo.Memory.{read_buffer}
use guthi_core.Cpuinfo.Parse.{ProcessorStatus}
use guthi_core.Cpuinfo.Tokens.{token_id, Tokenizer, decimal_from}
use guthi_core.SysInfo.{
  LinuxSysData, percent, get_current_all_cpu_usage, PowerInformation, get_sys_processor_info_win32,
}
use guthi_core.SysInfo.Counters.{
  shown, get_current_all_cpu_usage-shown, get_current_all_cpu_usage-at_once,
}
use guthi_core.SysInfo.Load.{
  Floats, SystemMemory, MemoryStatus, get_sys_memory_info, get_sys_memory_info-memory_text,
}
use guthi_core.SysInfo.Tables.{entry_for, get_sys_processor_info_win32-entries}
use guthi_core.Tracker.State.{Ended, fault}

abbrev no_data : LinuxSysData
no_data = shown 0 0 0 0

-- The first counter wraps around.
get_current_all_cpu_usage-shown_example :
    (get_current_all_cpu_usage no_data
        (some (shown (2 ^ 64 - 1) 5 7 100))
        none
        (some (shown (2 ^ 64 - 1 + 3) (5 + 0) (7 + 2) (100 + 15)))
      ≡ (shown (2 ^ 64 - 1) 5 7 100, percent 5 20))
    × (5 ≤ 20)
get_current_all_cpu_usage-shown_example =
    get_current_all_cpu_usage-shown (2 ^ 64 - 1) 5 7 100 3 0 2 15 no_data none (omega arith)

get_current_all_cpu_usage-at_once_test :
    get_current_all_cpu_usage no_data none (some (shown 4 5 7 100)) (some (shown 4 5 7 100))
    ≡ (shown 4 5 7 100, percent 0 0)
get_current_all_cpu_usage-at_once_test = get_current_all_cpu_usage-at_once 4 5 7 100 no_data

abbrev one_processor : List PowerInformation
one_processor = record { number = 0; max_mhz = 2400; current_mhz = 800 } ∷ []

get_sys_processor_info_win32-entries_example :
    ((s : ProcessorStatus) × (get_sys_processor_info_win32 0 one_processor ≡ Ended.ok s)
      × (s.processor_count ≡ 1)
      × ((n : ℕ) → s.processors n ≡ entry_for one_processor n)
      × (1 ≤ 64))
    ⊎ ((get_sys_processor_info_win32 0 one_processor ≡ fault) × (64 < 1))
get_sys_processor_info_win32-entries_example = get_sys_processor_info_win32-entries one_processor

abbrev whole_numbers : Floats
whole_numbers = record {
  Float = ℕ;
  of_nat = λ n. n;
  minus = λ a b. a;
  times = λ a b. a * b;
  over = λ a b. a;
  to_uint64 = λ a. a;
}

abbrev new_tokenizer : Tokenizer
new_tokenizer = record { ptr = []; type = token_id; value = none; id = [] }

abbrev forty_eight_mb : Bytes
forty_eight_mb = 52 ∷ 57 ∷ 49 ∷ 53 ∷ 50 ∷ []

forty_eight_mb-IsNumber : IsNumber forty_eight_mb
forty_eight_mb-IsNumber = (
  (omega arith, omega arith),
  (
    (omega arith, omega arith),
    ((omega arith, omega arith), ((omega arith, omega arith), ((omega arith, omega arith), tt))),
  ),
)

memory_buffer :
    read_buffer (replicate 1024 0) (memory_text 3 forty_eight_mb 32 (107 ∷ []))
    ≡ memory_text 3 forty_eight_mb 32 (107 ∷ replicate 1002 0)
unfolding read_buffer
memory_buffer = refl

abbrev half_a_gigabyte : SystemMemory
half_a_gigabyte = record { totalram = 131072; mem_unit = 4096 }

get_sys_memory_info-memory_text_test :
    (s : MemoryStatus) × (get_sys_memory_info whole_numbers half_a_gigabyte 2
        (memory_text 3 forty_eight_mb 32 (107 ∷ []))
        (replicate 1024 0)
        new_tokenizer
      ≡ ok s)
    × (s.available_ram ≡ 48)
    × (s.installed_physical_ram ≡ 512)
    × (s.available_ram ≤ s.installed_physical_ram)
unfolding decimal_from
get_sys_memory_info-memory_text_test =
    get_sys_memory_info-memory_text whole_numbers half_a_gigabyte 3 0 forty_eight_mb
      (107 ∷ replicate 1002 0) (memory_text 3 forty_eight_mb 32 (107 ∷ [])) (replicate 1024 0) 32
      new_tokenizer forty_eight_mb-IsNumber (omega arith) refl memory_buffer (omega arith)
      (omega arith)
