-- ===== src/Event/Refine.antt =====
-- The queue of src/event/event.cpp goes through the shapes of `Shape`.
use guthi_core.Base.{
  ap, sym, subst, ℕ, suc, ◌<◌, ◌≡◌, ◌≢◌, refl, Option, none, some, List, [], ◌∷◌, arith,
}
use guthi_core.Event.{
  Handler, EventHandler, EventQueueEntry, EventQueue, push_event, pop_event, get_event, write, Op,
  push, pop, run,
}
use guthi_core.Event.Shape.{Shape, empty, single, double, stale, push_shape, pop_shape, run_shape}

module _ {Param : Type 0} where
  abbrev entry : EventHandler Param → Option ℕ → EventQueueEntry Param
  entry h p = record { handler = h; next = p }

  -- The pointers and entries of `q` stand in the given shape.
  pub data Shows (q : EventQueue Param) : Shape Param → Type 0 where
    at_empty : q.head ≡ none → Shows q empty
    at_single :
        {h : EventHandler Param} (a : ℕ)
        → a < q.fresh
        → q.head ≡ some a
        → q.tail ≡ some a
        → q.entries a ≡ some (entry h none)
        → Shows q (single h)
    at_double :
        {h g : EventHandler Param} (a b : ℕ)
        → a < q.fresh
        → b < q.fresh
        → a ≢ b
        → q.head ≡ some a
        → q.tail ≡ some a
        → q.entries a ≡ some (entry h (some b))
        → q.entries b ≡ some (entry g none)
        → Shows q (double h g)
    at_stale :
        {h : EventHandler Param} (a b : ℕ) (e : EventQueueEntry Param)
        → a < q.fresh
        → b < q.fresh
        → a ≢ b
        → q.head ≡ some b
        → q.tail ≡ some a
        → q.entries a ≡ some e
        → q.entries b ≡ some (entry h none)
        → Shows q (stale h)

  push_event-Shows :
      (e : ℕ) (f : Handler Param) (q : EventQueue Param) {s : Shape Param}
      → Shows q s
      → (q' : EventQueue Param) × (push_event e f q ≡ some q')
        × Shows q' (push_shape (record { event = e; handler = f }) s)
  unfolding push_event write
  push_event-Shows e f q (at_empty hd) =
      let h : EventHandler Param = record { event = e; handler = f } in
      (
        record q {
          entries = write q.entries q.fresh (entry h none);
          fresh = suc q.fresh;
          head = some q.fresh;
          tail = some q.fresh;
        },
        rw hd,
        at_single q.fresh (omega arith) refl refl (ground arith),
      )
  push_event-Shows e f q (at_single {h = g} a l hd tl ca) =
      let h : EventHandler Param = record { event = e; handler = f } in
      (
        record q {
          entries = write (write q.entries q.fresh (entry h none)) a (entry g (some q.fresh));
          fresh = suc q.fresh;
        },
        rw (hd, tl) (ground arith),
        at_double a q.fresh (omega arith) (omega arith) (omega arith) hd tl (ground arith)
            (ground arith),
      )
  push_event-Shows e f q (at_double {h = g} a b la lb ne hd tl ca cb) =
      let h : EventHandler Param = record { event = e; handler = f } in
      (
        record q {
          entries = write (write q.entries q.fresh (entry h none)) a (entry g (some q.fresh));
          fresh = suc q.fresh;
        },
        rw (hd, tl) (ground arith),
        at_double a q.fresh (omega arith) (omega arith) (omega arith) hd tl (ground arith)
            (ground arith),
      )
  push_event-Shows e f q (at_stale a b x la lb ne hd tl ca cb) =
      let h : EventHandler Param = record { event = e; handler = f } in
      (
        record q {
          entries =
              write (write q.entries q.fresh (entry h none)) a (record x { next = some q.fresh });
          fresh = suc q.fresh;
        },
        rw (hd, tl) (ground arith),
        at_stale a b (record x { next = some q.fresh }) (omega arith) (omega arith) ne hd tl
            (ground arith) (ground arith),
      )

  abbrev Popped : EventQueue Param → Shape Param → Type 0
  Popped q s = elim (pop_shape s) [
    | none ↦ pop_event q ≡ none
    | some (h, s') ↦ (q' : EventQueue Param) × (pop_event q ≡ some (h, q')) × Shows q' s'
  ]

  pop_event-Shows : (q : EventQueue Param) {s : Shape Param} → Shows q s → Popped q s
  unfolding pop_event
  pop_event-Shows q (at_empty hd) = ground arith
  pop_event-Shows q (at_single a l hd tl ca) =
      (record q { head = none }, rw hd (ground arith), at_empty refl)
  pop_event-Shows q (at_double a b la lb ne hd tl ca cb) =
      (record q { head = some b }, rw hd (ground arith), at_stale a b _ la lb ne refl tl ca cb)
  pop_event-Shows q (at_stale a b x la lb ne hd tl ca cb) =
      (record q { head = none }, rw hd (ground arith), at_empty refl)

  -- `get_event` is the handler that `pop_event` would give.
  pub get_event-pop_event :
      (q : EventQueue Param)
      → get_event q ≡ elim (pop_event q) [ none ↦ none | some (h, _) ↦ some h ]
  unfolding get_event pop_event
  get_event-pop_event q = ground arith

  -- A run of the code and a run of the shapes: both end in a null dereference, or both pop the same
  -- handlers and the last queue stands in the last shape.
  abbrev pub Agrees :
      Option (List (EventHandler Param) × EventQueue Param)
      → Option (List (EventHandler Param) × Shape Param)
      → Type 0
  Agrees none none = Unit {0}
  Agrees none (some _) = ⊥
  Agrees (some _) none = ⊥
  Agrees (some (hs, q)) (some (gs, s)) = (hs ≡ gs) × Shows q s

  Agrees-cons :
      (h : EventHandler Param) (r : Option (List (EventHandler Param) × EventQueue Param))
      (s : Option (List (EventHandler Param) × Shape Param))
      → Agrees r s
      → Agrees
          (elim r [ none ↦ none | some (hs, q) ↦ some (h ∷ hs, q) ])
          (elim s [ none ↦ none | some (hs, t) ↦ some (h ∷ hs, t) ])
  Agrees-cons h none none a = tt
  Agrees-cons h none (some _) a = a
  Agrees-cons h (some _) none a = a
  Agrees-cons h (some (hs, q)) (some (gs, s)) (e, shows) = (ap (◌∷◌ h) e, shows)

  run_push :
      (e : ℕ) (f : Handler Param) (ops : List (Op Param)) (q : EventQueue Param)
      {q' : EventQueue Param}
      → push_event e f q ≡ some q'
      → run (push e f ∷ ops) q ≡ run ops q'
  unfolding run
  run_push e f ops q done = rw (done, run)

  run_pop :
      (ops : List (Op Param)) (q : EventQueue Param) {h : EventHandler Param}
      {q' : EventQueue Param}
      → pop_event q ≡ some (h, q')
      → run (pop ∷ ops) q ≡ elim (run ops q') [ none ↦ none | some (hs, r) ↦ some (h ∷ hs, r) ]
  unfolding run
  run_pop ops q done = rw (done, run)

  run_pop_empty :
      (ops : List (Op Param)) (q : EventQueue Param) → pop_event q ≡ none → run (pop ∷ ops) q ≡ none
  unfolding run
  run_pop_empty ops q done = rw (done, run)

  -- Every run of `push_event` and `pop_event` is a run of the machine of shapes: it dereferences
  -- null exactly where that machine has nothing to pop, and otherwise pops the same handlers.
  pub run-run_shape :
      (ops : List (Op Param)) (q : EventQueue Param) (s : Shape Param)
      → Shows q s
      → Agrees (run ops q) (run_shape ops s)
  unfolding run_shape
  run-run_shape [] q s shows = unfold run in (refl, shows)
  run-run_shape (push e f ∷ ops) q s shows =
      let (q', done, shows') = push_event-Shows e f q shows in
      let h : EventHandler Param = record { event = e; handler = f } in
      subst (λ r. Agrees r (run_shape ops (push_shape h s))) (sym (run_push e f ops q done))
        (run-run_shape ops q' (push_shape h s) shows')
  run-run_shape (pop ∷ ops) q empty shows =
      subst (λ r. Agrees r none) (sym (run_pop_empty ops q (pop_event-Shows q shows))) tt
  run-run_shape (pop ∷ ops) q (single h) shows =
      let (q', done, shows') = pop_event-Shows q shows in
      subst (λ r. Agrees r (run_shape (pop ∷ ops) (single h))) (sym (run_pop ops q done))
        (Agrees-cons h (run ops q') (run_shape ops empty) (run-run_shape ops q' empty shows'))
  run-run_shape (pop ∷ ops) q (double h g) shows =
      let (q', done, shows') = pop_event-Shows q shows in
      subst (λ r. Agrees r (run_shape (pop ∷ ops) (double h g))) (sym (run_pop ops q done))
        (Agrees-cons h (run ops q') (run_shape ops (stale g))
          (run-run_shape ops q' (stale g) shows'))
  run-run_shape (pop ∷ ops) q (stale h) shows =
      let (q', done, shows') = pop_event-Shows q shows in
      subst (λ r. Agrees r (run_shape (pop ∷ ops) (stale h))) (sym (run_pop ops q done))
        (Agrees-cons h (run ops q') (run_shape ops empty) (run-run_shape ops q' empty shows'))
