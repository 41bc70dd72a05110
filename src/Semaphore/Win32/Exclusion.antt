-- ===== src/Semaphore/Win32/Exclusion.antt =====
-- What the `Semaphore` of src/shared_memory/semaphore.hpp gives processes on Windows.
use guthi_core.Base.{
  ℕ, zero, ◌≤◌, ◌≡◌, refl, Bool, true, false, Option, none, some, [], ◌∷◌, length, if◌then◌else◌, ℤ,
  pos,
}
use guthi_core.Semaphore.Mutex.{Mutex, Users, Reached, Reached-one_inside, Reached-lock_taken}
use guthi_core.Semaphore.Win32.{
  wait_object_0, wait_timeout, infinite, Kernel32, Semaphore, semaphore_name, create, lock, unlock,
}

-- What Windows promises of a semaphore with the maximum 1, which a process `p` has as `handle p`: a
-- call that opens it does not change its count.
pub record IsKernel32 (k : Kernel32) (handle : ℕ → ℕ) : Type 0 where
  pub value : k.World → ℕ
  pub opens :
      (p : ℕ) (w : k.World)
      → value w ≤ 1
      → (w' : k.World) × (k.create_semaphore p 1 1 semaphore_name w ≡ (some (handle p), w'))
        × (value w' ≡ value w)
  pub wait_signaled :
      (p time : ℕ) (w : k.World)
      → value w ≡ 1
      → (w' : k.World) × (k.wait_for_single_object p (handle p) time w ≡ some (wait_object_0, w'))
        × (value w' ≡ 0)
  pub wait_no_time :
      (p : ℕ) (w : k.World)
      → value w ≡ 0
      → (w' : k.World) × (k.wait_for_single_object p (handle p) 0 w ≡ some (wait_timeout, w'))
        × (value w' ≡ 0)
  pub wait_on :
      (p : ℕ) (w : k.World) → value w ≡ 0 → k.wait_for_single_object p (handle p) infinite w ≡ none
  pub release_taken :
      (p : ℕ) (w : k.World)
      → value w ≡ 0
      → (w' : k.World) × (k.release_semaphore p (handle p) 1 w ≡ (true, w')) × (value w' ≡ 1)

-- As the comment on `lock` says, a process can proceed if 0 is returned.
abbrev pub may_proceed : ℤ → Bool
may_proceed (pos zero) = true
may_proceed _ = false

module _ (k : Kernel32) (handle : ℕ → ℕ) (laws : IsKernel32 k handle) where
  abbrev pub semaphore_of : ℕ → Semaphore
  semaphore_of p = record { sem_hnd = handle p }

  abbrev pub locked : Option (ℤ × k.World) → Option (Bool × k.World)
  locked none = none
  locked (some (r, w)) = some (may_proceed r, w)

  pub lock_signaled :
      (p : ℕ) (block : Bool) (w : k.World)
      → laws.value w ≡ 1
      → (w' : k.World) × (locked (lock k p (semaphore_of p) block w) ≡ some (true, w'))
        × (laws.value w' ≡ 0)
  unfolding lock
  lock_signaled p block w free =
      let (w', e, none_left) = laws.wait_signaled p (if block then infinite else 0) w free in
      (w', rw (locked, lock, e) refl, none_left)

  pub lock_no_time :
      (p : ℕ) (w : k.World)
      → laws.value w ≡ 0
      → (w' : k.World) × (locked (lock k p (semaphore_of p) false w) ≡ some (false, w'))
        × (laws.value w' ≡ 0)
  unfolding lock
  lock_no_time p w taken =
      let (w', e, still) = laws.wait_no_time p w taken in (w', rw (locked, lock, e) refl, still)

  pub lock_waits :
      (p : ℕ) (w : k.World) → laws.value w ≡ 0 → locked (lock k p (semaphore_of p) true w) ≡ none
  unfolding lock
  lock_waits p w taken = rw (locked, lock, laws.wait_on p w taken) refl

  pub unlock_taken :
      (p : ℕ) (w : k.World)
      → laws.value w ≡ 0
      → (unlock k p (semaphore_of p) w).0 ≡ pos 0 × laws.value (unlock k p (semaphore_of p) w).1 ≡ 1
  unfolding unlock
  unlock_taken p w taken = let (w', e, free) = laws.release_taken p w taken in rw e (refl, free)

  pub create_keeps :
      (p : ℕ) (w : k.World) → laws.value w ≤ 1 → laws.value (create k p w).1 ≡ laws.value w
  unfolding create
  create_keeps p w l = let (w', e, same) = laws.opens p w l in rw (create, e) (rw e same)

  -- The implementation of the interface.
  abbrev pub win32_mutex : Mutex k.World
  win32_mutex = record {
    value = laws.value;
    lock = λ p block w. locked (lock k p (semaphore_of p) block w);
    unlock = λ p w. (unlock k p (semaphore_of p) w).1;
    join = λ p w. (create k p w).1;
    lock_free = lock_signaled;
    lock_taken = lock_no_time;
    lock_waits = lock_waits;
    unlock_taken = λ p w taken. (unlock_taken p w taken).1;
    join_keeps = create_keeps;
  }

  -- If Windows keeps its promises, processes that only unlock what they have locked, and go on only
  -- when `lock` returns 0, are never two at a time between the two calls, whatever others construct
  -- the semaphore meanwhile.
  pub win32-one_inside : (s : Users k.World) → Reached win32_mutex s → length s.inside ≤ 1
  win32-one_inside s r = Reached-one_inside win32_mutex r

  -- If a process holds the semaphore, another waits, or gets another number than 0 if it does not
  -- want to wait; once the first calls `unlock`, the other's `lock` returns at once, with 0.
  pub win32-lock_taken :
      (s : Users k.World) (p : ℕ)
      → Reached win32_mutex s
      → s.inside ≡ p ∷ []
      → (q : ℕ)
      → (locked (lock k q (semaphore_of q) true s.world) ≡ none)
        × ((w : k.World) × (locked (lock k q (semaphore_of q) false s.world) ≡ some (false, w)))
        × ((w : k.World) × (locked
                (lock k q (semaphore_of q) true (unlock k p (semaphore_of p) s.world).1)
              ≡ some (true, w))
            × Reached win32_mutex (record { world = w; inside = q ∷ [] }))
  win32-lock_taken s p r one q = Reached-lock_taken win32_mutex r one q
