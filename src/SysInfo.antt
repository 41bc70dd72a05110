-- ===== src/SysInfo.antt =====
-- src/runtime/sys_info.cpp: the load of the memory and of the processors. What the system tells is an
-- argument.
pub mod Load
pub mod Counters
pub mod Tables
mod Examples
use guthi_core.Base.{
  ℕ, zero, suc, ◌+◌, ◌-◌, ◌*◌, ◌/◌, ◌%◌, ◌^◌, Bool, true, false, Option, none, some, List, [], ◌∷◌,
  ltb, ◌==◌, if◌then◌else◌, length, Bytes,
}
use guthi_core.Cpuinfo.Parse.{ProcessorInfo, ProcessorStatus}
use guthi_core.Tracker.State.{Ended, ok, exited, fault, ◌>>=◌}

-- `PROCESSOR_POWER_INFORMATION`, the parts that are read.
pub record PowerInformation : Type 0 where
  pub number : ℕ
  pub max_mhz : ℕ
  pub current_mhz : ℕ

abbrev pub set_processor : ℕ → PowerInformation → ProcessorStatus → ProcessorStatus
set_processor pro i s = record s {
  processors = λ n.
      if n == pro
      then record {
        processor_number = i.number;
        current_mhz = i.current_mhz;
        total_mhz = i.max_mhz;
      }
      else s.processors n;
}

-- The loop of `GetSysProcessorInfo` on Windows, from a processor on; the table has 64 entries.
unfoldable pub fill_processors : ℕ → List PowerInformation → ProcessorStatus → Ended ProcessorStatus
fill_processors pro [] s = ok s
fill_processors pro (i ∷ infos) s =
    let rest = fill_processors (suc pro) infos (set_processor pro i s) in
    if ltb pro 64 then rest else fault

abbrev pub no_processor : ProcessorInfo
no_processor = record { processor_number = 0; current_mhz = 0; total_mhz = 0 }

-- `GetSysProcessorInfo` on Windows; the result of `CallNtPowerInformation` comes first.
unfoldable pub get_sys_processor_info_win32 : ℕ → List PowerInformation → Ended ProcessorStatus
unfolding fill_processors
get_sys_processor_info_win32 result infos =
    if result == 0
    then fill_processors 0 infos
        (record { processor_count = length infos; processors = λ n. no_processor })
    else exited

-- The counters of /proc/stat.
pub record LinuxSysData : Type 0 where
  pub total_usr : ℕ
  pub total_usr_low : ℕ
  pub total_sys : ℕ
  pub total_idle : ℕ

-- What `GetCurrentAllCPUUsage` returns: 0, or a part of a whole in percent.
pub data Usage : Type 0 where
  zero_percent : Usage
  percent : ℕ → ℕ → Usage

-- The difference of two counters of 64 bits.
abbrev pub since : ℕ → ℕ → ℕ
since old new = (2 ^ 64 + new - old) % 2 ^ 64

abbrev pub usage_between : LinuxSysData → LinuxSysData → Usage
usage_between old new =
    let busy =
      (since old.total_usr new.total_usr
        + since old.total_usr_low new.total_usr_low
        + since old.total_sys new.total_sys)
      % 2 ^ 64 in
    percent busy ((busy + since old.total_idle new.total_idle) % 2 ^ 64)

-- `GetCurrentAllCPUUsage` on Linux. The counters of the first call are kept: `kept` is none before it,
-- and `unset` is what they are if the file could not be opened then. A reading is none where the file
-- can not be opened.
unfoldable pub get_current_all_cpu_usage :
    LinuxSysData
    → Option LinuxSysData
    → Option LinuxSysData
    → Option LinuxSysData
    → LinuxSysData × Usage
get_current_all_cpu_usage unset kept first now =
    let old : LinuxSysData = elim kept [
      | some d ↦ d
      | none ↦ elim first [ none ↦ unset | some d ↦ d ]
    ] in
    elim now [ none ↦ (old, zero_percent) | some d ↦ (old, usage_between old d) ]
