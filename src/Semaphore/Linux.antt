-- ===== src/Semaphore/Linux.antt =====
-- The `Semaphore` of src/shared_memory/semaphore.hpp on Linux. Messages to the standard error are not
-- modelled.
pub mod Exclusion
pub mod Faults
mod Examples
use guthi_core.Base.{
  ℕ, ◌+◌, Bool, true, false, not, ◌&&◌, Option, none, some, ◌==◌, if◌then◌else◌, ℤ, pos, negsuc,
}

-- What a call gives: a number that is not negative, or -1 and `errno`.
pub data Result : Type 0 where
  gives : ℕ → Result
  fails : ℕ → Result

pub record Sembuf : Type 0 where
  pub sem_num : ℕ
  pub sem_op : ℤ
  pub sem_flg : ℕ

-- The calls of the system. `semget` has the key, the number of semaphores and the flags;
-- `semctl_setval` the semaphore, its index and the value; `semop` has the process first, and gives
-- none if it does not return.
pub record SystemV : Type 1 where
  pub World : Type 0
  pub semget : ℕ → ℕ → ℕ → World → Result × World
  pub semctl_setval : ℤ → ℕ → ℕ → World → Result × World
  pub semctl_rmid : ℤ → ℕ → World → World
  pub semop : ℕ → ℤ → Sembuf → World → Option (Result × World)

abbrev pub key : ℕ
key = 69

abbrev pub n_sems : ℕ
n_sems = 1

abbrev pub sem_num : ℕ
sem_num = 0

-- IPC_CREAT and the rights of the user and the group.
abbrev pub create_flags : ℕ
create_flags = 512 + (256 + 128 + 32 + 16)

abbrev pub ipc_nowait : ℕ
ipc_nowait = 2048

abbrev pub sem_undo : ℕ
sem_undo = 4096

abbrev pub einval : ℕ
einval = 22

pub record Semaphore : Type 0 where
  pub id : ℤ

-- What a function of type `int` returns: `lock` has a path to its end without a `return`.
pub data Returned : Type 0 where
  returns : ℤ → Returned
  no_value : Returned

abbrev pub lock_flags : Bool → ℕ
lock_flags block_call = (if block_call then 0 else ipc_nowait) + sem_undo

-- What `lock` makes of the result of `semop`.
abbrev pub lock_result : Bool → Result → Returned
lock_result block_call (gives n) = no_value
lock_result block_call (fails errno) =
    if errno == einval && not block_call then returns (pos 0) else returns (negsuc 0)

abbrev pub unlock_result : Result → ℤ
unlock_result (gives n) = pos 0
unlock_result (fails errno) = negsuc 0

module _ (v : SystemV) where
  unfoldable pub create : v.World → Semaphore × v.World
  create w =
      let (made, w1) = v.semget key n_sems create_flags w in
      elim made [
        | fails errno ↦ (record { id = negsuc 0 }, w1)
        | gives n ↦ (record { id = pos n }, (v.semctl_setval (pos n) 0 1 w1).1)
      ]

  unfoldable pub lock : ℕ → Semaphore → Bool → v.World → Option (Returned × v.World)
  lock p s block_call w =
      elim (v.semop p s.id
        (record { sem_num = sem_num; sem_op = negsuc 0; sem_flg = lock_flags block_call }) w) [
          | none ↦ none
          | some (r, w') ↦ some (lock_result block_call r, w')
        ]

  -- `unset` is what `sem_flg` holds, which is not set.
  unfoldable pub unlock : ℕ → Semaphore → ℕ → v.World → Option (ℤ × v.World)
  unlock p s unset w =
      elim (v.semop p s.id (record { sem_num = sem_num; sem_op = pos 1; sem_flg = unset }) w) [
        | none ↦ none
        | some (r, w') ↦ some (unlock_result r, w')
      ]

  abbrev pub destroy : Semaphore → v.World → v.World
  destroy s w = v.semctl_rmid s.id sem_num w
