-- ===== src/Semaphore/Win32/Examples.antt =====
-- The `Semaphore` of src/shared_memory/semaphore.hpp with a Windows that keeps a count.
use guthi_core.Base.{
  ℕ, zero, suc, ◌+◌, ◌≤◌, ◌≡◌, refl, sym, subst, true, false, Option, none, some, [], ◌∷◌, arith,
  length,
}
use guthi_core.Semaphore.Mutex.{Users, Reached, created, locks}
use guthi_core.Semaphore.Win32.{WaitResult, wait_object_0, wait_timeout, Kernel32, lock, unlock}
use guthi_core.Semaphore.Win32.Exclusion.{
  IsKernel32, locked, win32_mutex, win32-one_inside, win32-lock_taken,
}

abbrev wait_counted : ℕ → ℕ → Option (WaitResult × ℕ)
wait_counted (suc n) time = some (wait_object_0, n)
wait_counted zero zero = some (wait_timeout, 0)
wait_counted zero (suc _) = none

abbrev counted : Kernel32
counted = record {
  World = ℕ;
  create_semaphore = λ p initial maximum name w. (some 4, w);
  wait_for_single_object = λ p h time w. wait_counted w time;
  release_semaphore = λ p h n w. (true, w + n);
  close_handle = λ p h w. w;
}

abbrev counted-IsKernel32 : IsKernel32 counted (λ p. 4)
counted-IsKernel32 = record {
  value = λ w. w;
  opens = λ p w l. (w, refl, refl);
  wait_signaled = λ p time w h.
      subst (λ n. (w' : ℕ) × (wait_counted n time ≡ some (wait_object_0, w')) × (w' ≡ 0)) (sym h)
        (0, refl, refl);
  wait_no_time = λ p w h.
      subst (λ n. (w' : ℕ) × (wait_counted n 0 ≡ some (wait_timeout, w')) × (w' ≡ 0)) (sym h)
        (0, refl, refl);
  wait_on = λ p w h. rw h refl;
  release_taken = λ p w h. (w + 1, refl, omega arith);
}

abbrev one_in : Users ℕ
one_in = record { world = 0; inside = 7 ∷ [] }

one_in-Reached : Reached (win32_mutex counted (λ p. 4) counted-IsKernel32) one_in
unfolding lock
one_in-Reached = locks (created refl) 7 true refl

win32-one_inside_example : length one_in.inside ≤ 1
win32-one_inside_example =
    win32-one_inside counted (λ p. 4) counted-IsKernel32 one_in one_in-Reached

win32-lock_taken_example :
    (locked counted (λ p. 4) counted-IsKernel32 (lock counted 8 (record { sem_hnd = 4 }) true 0)
      ≡ none)
    × ((w : ℕ) × (locked counted
            (λ p. 4)
            counted-IsKernel32
            (lock counted 8 (record { sem_hnd = 4 }) false 0)
          ≡ some (false, w)))
    × ((w : ℕ) × (locked counted
            (λ p. 4)
            counted-IsKernel32
            (lock counted 8
              (record { sem_hnd = 4 })
              true
              (unlock counted 7 (record { sem_hnd = 4 }) 0).1)
          ≡ some (true, w))
        × Reached
            (win32_mutex counted (λ p. 4) counted-IsKernel32)
            (record { world = w; inside = 8 ∷ [] }))
win32-lock_taken_example =
    win32-lock_taken counted (λ p. 4) counted-IsKernel32 one_in 7 one_in-Reached refl 8
