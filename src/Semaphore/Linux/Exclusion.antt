-- ===== src/Semaphore/Linux/Exclusion.antt =====
-- What the `Semaphore` of src/shared_memory/semaphore.hpp gives processes on Linux that share one,
-- constructed once.
use guthi_core.Base.{
  ℕ, suc, ◌+◌, ◌-◌, ◌/◌, ◌%◌, ◌≤◌, ◌≡◌, refl, Bool, true, false, Option, none, some, length, ◌==◌,
  if◌then◌else◌, ℤ, pos, negsuc,
}
use guthi_core.Semaphore.Linux.{
  gives, fails, SystemV, key, n_sems, create_flags, Semaphore, Returned, returns, no_value,
  lock_flags, lock, unlock,
}
use guthi_core.Semaphore.Mutex.{Mutex, Users, Reached, Reached-one_inside}

abbrev pub with_undo : ℕ → Bool
with_undo flags = ((flags / 4096) % 2) == 1

abbrev pub eagain : ℕ
eagain = 11

-- What Linux promises of a semaphore: its value, what is added to it when a process exits, the call
-- with which a process comes to one that is there, and the operations that take and give one.
pub record IsSystemV (v : SystemV) (n : ℕ) : Type 0 where
  pub value : v.World → ℕ
  pub adjust : ℕ → v.World → ℕ
  pub exit : ℕ → v.World → v.World
  pub exit_adds : (p : ℕ) (w : v.World) → value (exit p w) ≡ value w + adjust p w
  pub opens : (w : v.World) → (w' : v.World) × (v.semget key n_sems create_flags w ≡ (gives n, w'))
  pub sets : (w : v.World) → value (v.semctl_setval (pos n) 0 1 w).1 ≡ 1
  pub takes :
      (p : ℕ) (block : Bool) (w : v.World) (left : ℕ)
      → value w ≡ suc left
      → (w' : v.World) × (v.semop p
            (pos n)
            (record { sem_num = 0; sem_op = negsuc 0; sem_flg = lock_flags block })
            w
          ≡ some (gives 0, w'))
        × (value w' ≡ left)
        × (adjust p w' ≡ suc (adjust p w))
  pub waits :
      (p : ℕ) (w : v.World)
      → value w ≡ 0
      → v.semop p (pos n) (record { sem_num = 0; sem_op = negsuc 0; sem_flg = lock_flags true }) w
        ≡ none
  pub refuses :
      (p : ℕ) (w : v.World)
      → value w ≡ 0
      → (w' : v.World) × (v.semop p
            (pos n)
            (record { sem_num = 0; sem_op = negsuc 0; sem_flg = lock_flags false })
            w
          ≡ some (fails eagain, w'))
        × (value w' ≡ 0)
  pub adds :
      (p flags : ℕ) (w : v.World)
      → (w' : v.World) × (v.semop p
            (pos n)
            (record { sem_num = 0; sem_op = pos 1; sem_flg = flags })
            w
          ≡ some (gives 0, w'))
        × (value w' ≡ suc (value w))
        × (adjust p w' ≡ (if with_undo flags then adjust p w - 1 else adjust p w))

-- The semaphore has been taken if no value is returned.
abbrev pub took : Returned → Bool
took no_value = true
took (returns r) = false

-- The object, where the system has given its semaphore the number `n`.
abbrev pub shared : ℕ → Semaphore
shared n = record { id = pos n }

module _ (v : SystemV) (n : ℕ) (laws : IsSystemV v n) where
  abbrev pub locked : Option (Returned × v.World) → Option (Bool × v.World)
  locked none = none
  locked (some (r, w)) = some (took r, w)

  -- The state behind `unlock`.
  abbrev pub behind : v.World → Option (ℤ × v.World) → v.World
  behind w none = w
  behind w (some (r, w')) = w'

  pub lock_free :
      (p : ℕ) (block : Bool) (w : v.World)
      → laws.value w ≡ 1
      → (w' : v.World) × (locked (lock v p (shared n) block w) ≡ some (true, w'))
        × (laws.value w' ≡ 0)
  unfolding lock
  lock_free p block w free =
      let (w', e, none_left, _) = laws.takes p block w 0 free in
      (w', rw (locked, lock, e) refl, none_left)

  pub lock_refused :
      (p : ℕ) (w : v.World)
      → laws.value w ≡ 0
      → (w' : v.World) × (locked (lock v p (shared n) false w) ≡ some (false, w'))
        × (laws.value w' ≡ 0)
  unfolding lock
  lock_refused p w taken =
      let (w', e, still) = laws.refuses p w taken in (w', rw (locked, lock, e) refl, still)

  pub lock_waits :
      (p : ℕ) (w : v.World) → laws.value w ≡ 0 → locked (lock v p (shared n) true w) ≡ none
  unfolding lock
  lock_waits p w taken = rw (locked, lock, laws.waits p w taken) refl

  pub unlock_adds :
      (p unset : ℕ) (w : v.World)
      → laws.value w ≡ 0
      → laws.value (behind w (unlock v p (shared n) unset w)) ≡ 1
  unfolding unlock
  unlock_adds p unset w taken =
      let (w', e, more, _) = laws.adds p unset w in rw (behind, unlock, e) (rw (more, taken) refl)

  -- The implementation of the interface: the processes have the object from before they part.
  abbrev pub linux_mutex : ℕ → Mutex v.World
  linux_mutex unset = record {
    value = laws.value;
    lock = λ p block w. locked (lock v p (shared n) block w);
    unlock = λ p w. behind w (unlock v p (shared n) unset w);
    join = λ p w. w;
    lock_free = lock_free;
    lock_taken = lock_refused;
    lock_waits = lock_waits;
    unlock_taken = λ p w. unlock_adds p unset w;
    join_keeps = λ p w l. refl;
  }

  -- If Linux keeps its promises, the semaphore is constructed once, no process exits, and each only
  -- unlocks what it has locked, then they are never two at a time between the two calls, whatever the
  -- flags hold that `unlock` does not set.
  pub linux-one_inside :
      (unset : ℕ) (s : Users v.World) → Reached (linux_mutex unset) s → length s.inside ≤ 1
  linux-one_inside unset s r = Reached-one_inside (linux_mutex unset) r
