-- ===== src/SysInfo/Load.antt =====
-- `GetSysMemoryInfo` of src/runtime/sys_info.cpp. Arithmetic of floating point numbers is a parameter.
use guthi_core.Base.{ℕ, suc, ◌*◌, ◌/◌, ◌%◌, ◌^◌, ◌<◌, ◌≤◌, ◌≡◌, refl, ap, false, arith, Bytes}
use guthi_core.Base.Runs.{Outcome, ok, ◌>>=◌}
use guthi_core.Cpuinfo.Available.{get_memory_info-memory_text, memory_text}
use guthi_core.Cpuinfo.Digits.{IsNumber}
use guthi_core.Cpuinfo.Memory.{get_memory_info, read_buffer}
use guthi_core.Cpuinfo.Tokens.{Tokenizer, decimal, is_num}

pub record MemoryStatus : Type 0 where
  pub installed_physical_ram : ℕ
  pub available_ram : ℕ
  pub memory_load : ℕ

abbrev pub byte_to_mb : ℕ → ℕ
byte_to_mb bytes = (bytes / 1024) / 1024

-- `float`: `to_uint64` is the conversion to `int` and from there to `uint64_t`.
pub record Floats : Type 1 where
  pub Float : Type 0
  pub of_nat : ℕ → Float
  pub minus : Float → Float → Float
  pub times : Float → Float → Float
  pub over : Float → Float → Float
  pub to_uint64 : Float → ℕ

-- What `sysinfo` tells of the memory.
pub record SystemMemory : Type 0 where
  pub totalram : ℕ
  pub mem_unit : ℕ

abbrev pub memory_load_of : Floats → ℕ → ℕ → ℕ
memory_load_of f available installed = f.to_uint64 (
    f.minus (f.of_nat 100)
      (f.times (f.over (f.of_nat available) (f.of_nat installed)) (f.of_nat 100)))

abbrev pub status_of : Floats → SystemMemory → ℕ → MemoryStatus
status_of f m available =
    let installed = byte_to_mb ((m.totalram * m.mem_unit) % 2 ^ 64) in
    let free = byte_to_mb available in
    record {
      installed_physical_ram = installed;
      available_ram = free;
      memory_load = memory_load_of f free installed;
    }

-- `GetSysMemoryInfo` on Linux; the last arguments are those of `GetMemoryInfo`.
unfoldable pub get_sys_memory_info :
    Floats → SystemMemory → ℕ → Bytes → Bytes → Tokenizer → Outcome MemoryStatus
get_sys_memory_info f m k output noise unset =
    get_memory_info k output noise unset >>= λ available. ok (status_of f m available)

-- On Windows, of what `GlobalMemoryStatusEx` tells.
abbrev pub get_sys_memory_info_win32 : ℕ → ℕ → ℕ → MemoryStatus
get_sys_memory_info_win32 total_phys avail_phys load = record {
  installed_physical_ram = byte_to_mb total_phys;
  available_ram = byte_to_mb avail_phys;
  memory_load = load;
}

byte_to_mb-kilobytes : (n : ℕ) → byte_to_mb (n * 1024) ≡ n / 1024
byte_to_mb-kilobytes n = let kb : (n * 1024) / 1024 ≡ n = omega arith in rw kb refl

-- If the buffer that `GetMemoryInfo` reads says that a number of kB less than 2 ^ 31 is available, and
-- the system has at least that memory, of less than 2 ^ 64 bytes, then the status has both in whole
-- megabytes, and no more available than installed.
pub get_sys_memory_info-memory_text :
    (f : Floats) (m : SystemMemory) (n k : ℕ) (ds rest output noise : Bytes) (c : ℕ) (t : Tokenizer)
    → IsNumber ds
    → decimal ds < 2 ^ 31
    → is_num c ≡ false
    → read_buffer noise output ≡ memory_text n ds c rest
    → decimal ds * 1024 ≤ m.totalram * m.mem_unit
    → m.totalram * m.mem_unit < 2 ^ 64
    → (s : MemoryStatus) × (get_sys_memory_info f m (suc (suc k)) output noise t ≡ ok s)
      × (s.available_ram ≡ decimal ds / 1024)
      × (s.installed_physical_ram ≡ byte_to_mb (m.totalram * m.mem_unit))
      × (s.available_ram ≤ s.installed_physical_ram)
unfolding get_sys_memory_info
get_sys_memory_info-memory_text f m n k ds rest output noise c t d small h text less room =
    let done = get_memory_info-memory_text n k ds rest output noise c t d small h text in
    let all : (m.totalram * m.mem_unit) % 2 ^ 64 ≡ m.totalram * m.mem_unit = omega arith in
    let free = byte_to_mb-kilobytes (decimal ds) in
    (
      status_of f m (decimal ds * 1024),
      rw (get_sys_memory_info, done) refl,
      free,
      ap byte_to_mb all,
      omega (arith, free, all),
    )
