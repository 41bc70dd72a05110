-- ===== src/SysInfo/Counters.antt =====
-- What `GetCurrentAllCPUUsage` of src/runtime/sys_info.cpp makes of counters that wrap around.
use guthi_core.Base.{ℕ, ◌+◌, ◌%◌, ◌^◌, ◌<◌, ◌≤◌, ◌≡◌, refl, Option, none, some, arith}
use guthi_core.SysInfo.{LinuxSysData, percent, since, get_current_all_cpu_usage}

-- What the counters show: their last 64 bits.
abbrev pub shown : ℕ → ℕ → ℕ → ℕ → LinuxSysData
shown usr low sys idle = record {
  total_usr = usr % 2 ^ 64;
  total_usr_low = low % 2 ^ 64;
  total_sys = sys % 2 ^ 64;
  total_idle = idle % 2 ^ 64;
}

since-shown : (old more : ℕ) → more < 2 ^ 64 → since (old % 2 ^ 64) ((old + more) % 2 ^ 64) ≡ more
since-shown old more l = omega arith

-- If the counters have gone up by less than 2 ^ 64 together since the first call, then each call
-- gives the part of the ticks that was not idle in all of them, also where the counters that are shown
-- have wrapped around meanwhile: at most the whole.
pub get_current_all_cpu_usage-shown :
    (usr low sys idle more_usr more_low more_sys more_idle : ℕ) (unset : LinuxSysData)
    (first : Option LinuxSysData)
    → more_usr + more_low + more_sys + more_idle < 2 ^ 64
    → (get_current_all_cpu_usage unset
          (some (shown usr low sys idle))
          first
          (some (shown (usr + more_usr) (low + more_low) (sys + more_sys) (idle + more_idle)))
        ≡ (
          shown usr low sys idle,
          percent (more_usr + more_low + more_sys) (more_usr + more_low + more_sys + more_idle),
        ))
      × (more_usr + more_low + more_sys ≤ more_usr + more_low + more_sys + more_idle)
unfolding get_current_all_cpu_usage
get_current_all_cpu_usage-shown usr low sys idle more_usr more_low more_sys more_idle unset first
      l =
    let busy : (more_usr + more_low + more_sys) % 2 ^ 64 ≡ more_usr + more_low + more_sys =
      omega arith in
    let all : (more_usr + more_low + more_sys + more_idle) % 2 ^ 64
        ≡ more_usr + more_low + more_sys + more_idle =
      omega arith in
    (
      rw
          (
            since-shown usr more_usr (omega arith),
            since-shown low more_low (omega arith),
            since-shown sys more_sys (omega arith),
            since-shown idle more_idle (omega arith),
            busy,
            all,
          )
          refl,
      omega arith,
    )

since-same : (n : ℕ) → since (n % 2 ^ 64) (n % 2 ^ 64) ≡ 0
since-same n = omega arith

-- If no tick passes between the two readings of the first call, it divides 0 by 0.
pub get_current_all_cpu_usage-at_once :
    (usr low sys idle : ℕ) (unset : LinuxSysData)
    → get_current_all_cpu_usage unset none
        (some (shown usr low sys idle))
        (some (shown usr low sys idle))
      ≡ (shown usr low sys idle, percent 0 0)
unfolding get_current_all_cpu_usage
get_current_all_cpu_usage-at_once usr low sys idle unset =
    rw (since-same usr, since-same low, since-same sys, since-same idle) refl
