-- ===== src/Semaphore/Win32.antt =====
-- The `Semaphore` of src/shared_memory/semaphore.hpp on Windows.
pub mod Exclusion
mod Examples
use guthi_core.Base.{
  ℕ, zero, suc, ◌≡◌, refl, Bool, true, false, Option, none, some, if◌then◌else◌, Bytes, codes, ℤ,
  pos, negsuc, Option-cases,
}

pub data WaitResult : Type 0 where
  wait_object_0 wait_abandoned wait_timeout wait_failed : WaitResult

abbrev pub infinite : ℕ
infinite = 4294967295

-- The calls of Windows, by the process that makes them. `create_semaphore` has the initial count, the
-- maximum and the name, and gives none for NULL; `wait_for_single_object` has the handle and the
-- time, and gives none if it does not return; `release_semaphore` has the handle and the count.
pub record Kernel32 : Type 1 where
  pub World : Type 0
  pub create_semaphore : ℕ → ℕ → ℕ → Bytes → World → Option ℕ × World
  pub wait_for_single_object : ℕ → ℕ → ℕ → World → Option (WaitResult × World)
  pub release_semaphore : ℕ → ℕ → ℕ → World → Bool × World
  pub close_handle : ℕ → ℕ → World → World

-- NULL is 0.
pub record Semaphore : Type 0 where
  pub sem_hnd : ℕ

abbrev pub semaphore_name : Bytes
semaphore_name = codes "guthi_semaphore"

-- What `lock` makes of the result of the wait.
abbrev pub lock_result : WaitResult → ℤ
lock_result wait_object_0 = pos 0
lock_result wait_timeout = negsuc 0
lock_result wait_failed = negsuc 0
lock_result wait_abandoned = negsuc 0

module _ (k : Kernel32) where
  unfoldable pub create : ℕ → k.World → Semaphore × k.World
  create p w =
      let (handle, w') = k.create_semaphore p 1 1 semaphore_name w in
      elim handle [ none ↦ (record { sem_hnd = 0 }, w') | some h ↦ (record { sem_hnd = h }, w') ]

  unfoldable pub lock : ℕ → Semaphore → Bool → k.World → Option (ℤ × k.World)
  lock p s block_call w =
      elim (k.wait_for_single_object p s.sem_hnd (if block_call then infinite else 0) w) [
        | none ↦ none
        | some (r, w') ↦ some (lock_result r, w')
      ]

  unfoldable pub unlock : ℕ → Semaphore → k.World → ℤ × k.World
  unlock p s w =
      let (success, w') = k.release_semaphore p s.sem_hnd 1 w in
      if success then (pos 0, w') else (negsuc 0, w')

  abbrev pub destroy : ℕ → Semaphore → k.World → k.World
  destroy p s w = k.close_handle p s.sem_hnd w
