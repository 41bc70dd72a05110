-- ===== src/Semaphore/Linux/Examples.antt =====
-- The `Semaphore` of src/shared_memory/semaphore.hpp with a Linux that keeps a count, and what each
-- process is due at its exit.
use guthi_core.Base.{
  ℕ, zero, suc, ◌+◌, ◌-◌, ◌/◌, ◌%◌, ◌≤◌, ◌≡◌, refl, Bool, true, false, Option, none, some, [], ◌∷◌,
  arith, ◌==◌, ==_iff, if◌then◌else◌, length, pos, negsuc,
}
use guthi_core.Semaphore.Linux.{
  Result, gives, fails, Sembuf, sem_num, einval, SystemV, lock_flags, create, lock, unlock,
}
use guthi_core.Semaphore.Linux.Exclusion.{IsSystemV, with_undo, shared, linux-one_inside}
use guthi_core.Semaphore.Linux.Faults.{Takes, lock-zero, create-taken, unlock-exit}
use guthi_core.Semaphore.Mutex.{created, locks}

abbrev SysWorld : Type 0
SysWorld = ℕ × (ℕ → ℕ)

abbrev due_set : ℕ → ℕ → (ℕ → ℕ) → ℕ → ℕ
due_set p x due q = if q == p then x else due q

due_set_same : (p x : ℕ) (due : ℕ → ℕ) → due_set p x due p ≡ x
due_set_same p x due = rw ((==_iff p p).1 refl) refl

abbrev take_counted : ℕ → ℕ → Bool → (ℕ → ℕ) → Option (Result × SysWorld)
take_counted (suc n) p now due = some (gives 0, (n, due_set p (suc (due p)) due))
take_counted zero p true due = some (fails 11, (0, due))
take_counted zero p false due = none

abbrev semop_counted : ℕ → Sembuf → SysWorld → Option (Result × SysWorld)
semop_counted p b (n, due) = elim b.sem_op [
  | pos x ↦
      some (gives 0, (n + x, due_set p (if with_undo b.sem_flg then due p - 1 else due p) due))
  | negsuc _ ↦ take_counted n p (((b.sem_flg / 2048) % 2) == 1) due
]

abbrev counting : SystemV
counting = record {
  World = SysWorld;
  semget = λ key n flags w. (gives 0, w);
  semctl_setval = λ id i x w. (gives 0, (x, w.1));
  semctl_rmid = λ id i w. w;
  semop = λ p id b w. semop_counted p b w;
}

counting-takes :
    (p : ℕ) (block : Bool) (w : SysWorld) (left : ℕ)
    → w.0 ≡ suc left
    → (w' : SysWorld) × (semop_counted p
          (record { sem_num = 0; sem_op = negsuc 0; sem_flg = lock_flags block })
          w
        ≡ some (gives 0, w'))
      × (w'.0 ≡ left)
      × (w'.1 p ≡ suc (w.1 p))
counting-takes p block (n, due) left h =
    ((left, due_set p (suc (due p)) due), rw h refl, refl, due_set_same p (suc (due p)) due)

abbrev counting-IsSystemV : IsSystemV counting 0
counting-IsSystemV = record {
  value = λ w. w.0;
  adjust = λ p w. w.1 p;
  exit = λ p w. (w.0 + w.1 p, due_set p 0 w.1);
  exit_adds = λ p w. refl;
  opens = λ w. (w, refl);
  sets = λ w. refl;
  takes = counting-takes;
  waits = λ p (n, due) h. rw h refl;
  refuses = λ p (n, due) h. ((0, due), rw h refl, refl);
  adds = λ p flags (n, due). (
    (n + 1, due_set p (if with_undo flags then due p - 1 else due p) due),
    refl,
    omega arith,
    due_set_same p (if with_undo flags then due p - 1 else due p) due,
  );
}

abbrev free_world : SysWorld
free_world = (1, λ p. 0)

linux-one_inside_test : length {A = ℕ} (7 ∷ []) ≤ 1
unfolding lock
linux-one_inside_test =
    linux-one_inside counting 0 counting-IsSystemV 0
      (record { world = (0, due_set 7 1 (λ p. 0)); inside = 7 ∷ [] })
      (locks {s = record { world = free_world; inside = [] }} (created {w = free_world} refl) 7 true
        refl)

-- A system on which the semaphore has been removed.
abbrev removed : SystemV
removed = record counting { semop = λ p id b w. some (fails 22, w) }

lock-zero_test :
    (false ≡ false)
    × (removed.semop 7
          (pos 0)
          (record { sem_num = sem_num; sem_op = negsuc 0; sem_flg = lock_flags false })
          free_world
        ≡ some (fails einval, free_world))
unfolding lock
lock-zero_test = lock-zero removed 7 (shared 0) false free_world free_world refl

create-taken_example :
    (w1 w2 : SysWorld) × Takes counting 7 (shared 0) true free_world w1
    × Takes counting 8 (create counting w1).0 false (create counting w1).1 w2
create-taken_example = create-taken counting 0 counting-IsSystemV 7 8 free_world refl

unlock-exit_test :
    (w1 w2 w3 w4 : SysWorld) × Takes counting 7 (shared 0) true free_world w1
    × (unlock counting 7 (shared 0) 0 w1 ≡ some (pos 0, w2))
    × Takes counting 8 (shared 0) false (counting-IsSystemV.exit 7 w2) w3
    × Takes counting 9 (shared 0) false w3 w4
unlock-exit_test = unlock-exit counting 0 counting-IsSystemV 7 8 9 0 free_world refl refl refl
