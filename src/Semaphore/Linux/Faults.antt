-- ===== src/Semaphore/Linux/Faults.antt =====
-- Where the `Semaphore` of src/shared_memory/semaphore.hpp does not keep processes apart on Linux.
use guthi_core.Base.{
  ℕ, suc, ◌≡◌, refl, sym, ap, ◌∙◌, subst, Bool, true, false, not, ◌&&◌, Option, none, some,
  some-injective, some-ne-none, arith, ◌==◌, ==_iff, if◌then◌else◌, pos, negsuc,
}
use guthi_core.Semaphore.Linux.{
  Result, gives, fails, SystemV, sem_num, einval, Semaphore, Returned, returns, no_value,
  lock_flags, lock_result, create, lock, unlock,
}
use guthi_core.Semaphore.Linux.Exclusion.{IsSystemV, with_undo, shared}

-- The semaphore is taken by a call of `lock` without a value.
abbrev pub Takes : (v : SystemV) → ℕ → Semaphore → Bool → v.World → v.World → Type 0
Takes v p s block w w' = lock v p s block w ≡ some (no_value, w')

gave_zero :
    (b block : Bool)
    → (if b && not block then returns (pos 0) else returns (negsuc 0)) ≡ returns (pos 0)
    → (b ≡ true) × (block ≡ false)
gave_zero true false e = (refl, refl)
gave_zero true true e = absurd (cc e)
gave_zero false block e = absurd (cc e)

lock_result-zero :
    (block : Bool) (r : Result)
    → lock_result block r ≡ returns (pos 0)
    → (r ≡ fails einval) × (block ≡ false)
lock_result-zero block (gives n) e = absurd (cc e)
lock_result-zero block (fails errno) e =
    let (same, free) = gave_zero (errno == einval) block e in
    (ap fails ((==_iff errno einval).0 same), free)

abbrev result_of : {W : Type 0} → Bool → Option (Result × W) → Option (Returned × W)
result_of block none = none
result_of block (some (r, w)) = some (lock_result block r, w)

result_of-zero :
    {W : Type 0} (block : Bool) (o : Option (Result × W)) (w : W)
    → result_of block o ≡ some (returns (pos 0), w)
    → (block ≡ false) × (o ≡ some (fails einval, w))
result_of-zero block none w e = absurd (some-ne-none _ (sym e))
result_of-zero block (some (r, w')) w e =
    let both = some-injective (lock_result block r, w') (returns (pos 0), w) e in
    let (failed, free) = lock_result-zero block r (ap (λ x. x.0) both) in
    (free, ap some (cc (failed, ap (λ x. x.1) both)))

-- If `lock` returns 0, on which its comment says that the process can proceed, then the semaphore has
-- not been taken: `semop` failed, with EINVAL, and the call was not to wait.
pub lock-zero :
    (v : SystemV) (p : ℕ) (s : Semaphore) (block : Bool) (w w' : v.World)
    → lock v p s block w ≡ some (returns (pos 0), w')
    → (block ≡ false)
      × (v.semop p s.id
            (record { sem_num = sem_num; sem_op = negsuc 0; sem_flg = lock_flags block })
            w
          ≡ some (fails einval, w'))
unfolding lock
lock-zero v p s block w w' e =
    result_of-zero block
      (v.semop p s.id (record { sem_num = sem_num; sem_op = negsuc 0; sem_flg = lock_flags block })
        w)
      w' e

module _ (v : SystemV) (n : ℕ) (laws : IsSystemV v n) where
  taken_by :
      (p : ℕ) (block : Bool) (w : v.World) (left : ℕ)
      → laws.value w ≡ suc left
      → (w' : v.World) × Takes v p (shared n) block w w'
        × (laws.value w' ≡ left)
        × (laws.adjust p w' ≡ suc (laws.adjust p w))
  unfolding lock
  taken_by p block w left h =
      let (w', e, l, a) = laws.takes p block w left h in (w', rw (lock, e) refl, l, a)

  create-unlocks : (w : v.World) → (create v w).0 ≡ shared n × laws.value (create v w).1 ≡ 1
  unfolding create
  create-unlocks w = let (w', e) = laws.opens w in rw (create, e) (rw e (refl, laws.sets w'))

  -- If Linux keeps its promises, a process can take the semaphore that another holds by constructing
  -- its own `Semaphore`, since the constructor sets the value of the one that is there to 1.
  pub create-taken :
      (p q : ℕ) (w : v.World)
      → laws.value w ≡ 1
      → (w1 w2 : v.World) × Takes v p (shared n) true w w1
        × Takes v q (create v w1).0 false (create v w1).1 w2
  create-taken p q w free =
      let (w1, first, _, _) = taken_by p true w 0 free in
      let (same, one) = create-unlocks w1 in
      let (w2, second, _, _) = taken_by q false (create v w1).1 0 one in
      (w1, w2, first, subst (λ s. Takes v q s false (create v w1).1 w2) (sym same) second)

  -- If Linux keeps its promises and the flags that `unlock` does not set happen to lack SEM_UNDO, then
  -- the exit of a process that has locked and unlocked the semaphore once leaves it at 2, so that two
  -- processes take it one after the other.
  pub unlock-exit :
      (p q r unset : ℕ) (w : v.World)
      → laws.value w ≡ 1
      → laws.adjust p w ≡ 0
      → with_undo unset ≡ false
      → (w1 w2 w3 w4 : v.World) × Takes v p (shared n) true w w1
        × (unlock v p (shared n) unset w1 ≡ some (pos 0, w2))
        × Takes v q (shared n) false (laws.exit p w2) w3
        × Takes v r (shared n) false w3 w4
  unfolding unlock
  unlock-exit p q r unset w free none_due lacks =
      let (w1, locks, l1, a1) = taken_by p true w 0 free in
      let (w2, e, l2, a2) = laws.adds p unset w1 in
      let unlocks : unlock v p (shared n) unset w1 ≡ some (pos 0, w2) = rw (unlock, e) refl in
      let kept : laws.adjust p w2 ≡ laws.adjust p w1 = a2 ∙ rw lacks refl in
      let two : laws.value (laws.exit p w2) ≡ 2 = omega (arith, laws.exit_adds p w2) in
      let (w3, second, l3, _) = taken_by q false (laws.exit p w2) 1 two in
      let (w4, third, _, _) = taken_by r false w3 0 l3 in
      (w1, w2, w3, w4, locks, unlocks, second, third)
