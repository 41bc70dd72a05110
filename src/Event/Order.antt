-- ===== src/Event/Order.antt =====
-- What a client of the queue of src/event/event.cpp sees: the order of delivery, and what is lost.
use guthi_core.Base.{◌≡◌, refl, ap, ◌∙◌, Option, none, some, List, [], ◌∷◌, ◌++◌}
use guthi_core.Event.{EventHandler, EventQueue, initial, Op, push, pop, run}
use guthi_core.Event.Refine.{at_empty, Agrees, run-run_shape}
use guthi_core.Event.Shape.{Shape, empty, single, double, stale, push_shape, run_shape}

-- A burst of one or two pushes onto the empty queue, then as many pops.
pub data Round (Param : Type 0) : Type 0 where
  one : EventHandler Param → Round Param
  two : EventHandler Param → EventHandler Param → Round Param

module _ {Param : Type 0} where
  abbrev pub pushing : EventHandler Param → Op Param
  pushing h = push h.event h.handler

  abbrev pub calls : List (Round Param) → List (Op Param)
  calls [] = []
  calls (one h ∷ rs) = pushing h ∷ pop ∷ calls rs
  calls (two h g ∷ rs) = pushing h ∷ pushing g ∷ pop ∷ pop ∷ calls rs

  abbrev pub pushed : List (Round Param) → List (EventHandler Param)
  pushed [] = []
  pushed (one h ∷ rs) = h ∷ pushed rs
  pushed (two h g ∷ rs) = h ∷ g ∷ pushed rs

  -- What a run pops, if it does not dereference null.
  abbrev pub popped :
      Option (List (EventHandler Param) × EventQueue Param) → Option (List (EventHandler Param))
  popped none = none
  popped (some (hs, q)) = some hs

  abbrev popped_shape :
      Option (List (EventHandler Param) × Shape Param) → Option (List (EventHandler Param))
  popped_shape none = none
  popped_shape (some (hs, s)) = some hs

  popped-Agrees :
      (r : Option (List (EventHandler Param) × EventQueue Param))
      (s : Option (List (EventHandler Param) × Shape Param))
      → Agrees r s
      → popped r ≡ popped_shape s
  popped-Agrees none none a = refl
  popped-Agrees none (some _) a = absurd a
  popped-Agrees (some _) none a = absurd a
  popped-Agrees (some (hs, q)) (some (gs, s)) a = ap some a.0

  popped-run :
      (ops : List (Op Param)) → popped (run ops initial) ≡ popped_shape (run_shape ops empty)
  popped-run ops =
      popped-Agrees (run ops initial) (run_shape ops empty)
        (run-run_shape ops initial empty (at_empty refl))

  run_shape-calls : (rs : List (Round Param)) → run_shape (calls rs) empty ≡ some (pushed rs, empty)
  unfolding run_shape
  run_shape-calls [] = refl
  run_shape-calls (one h ∷ rs) = rw (run_shape-calls rs, run_shape)
  run_shape-calls (two h g ∷ rs) = rw (run_shape-calls rs, run_shape)

  -- A client that drains the queue after every burst of at most two pushes gets every handler, in
  -- the order pushed, and never dereferences null.
  pub popped-calls : (rs : List (Round Param)) → popped (run (calls rs) initial) ≡ some (pushed rs)
  popped-calls rs = popped-run (calls rs) ∙ ap popped_shape (run_shape-calls rs)

  -- After any run of calls, three pops in a row dereference null: two events wait at most.
  run_shape-three_pops :
      (ops : List (Op Param)) (s : Shape Param) → run_shape (ops ++ pop ∷ pop ∷ pop ∷ []) s ≡ none
  unfolding run_shape
  run_shape-three_pops [] empty = refl
  run_shape-three_pops [] (single h) = refl
  run_shape-three_pops [] (double h g) = refl
  run_shape-three_pops [] (stale h) = refl
  run_shape-three_pops (push e f ∷ ops) s =
      run_shape-three_pops ops (push_shape (record { event = e; handler = f }) s)
  run_shape-three_pops (pop ∷ ops) empty = refl
  run_shape-three_pops (pop ∷ ops) (single h) = rw (run_shape-three_pops ops empty, run_shape)
  run_shape-three_pops (pop ∷ ops) (double h g) = rw (run_shape-three_pops ops (stale g), run_shape)
  run_shape-three_pops (pop ∷ ops) (stale h) = rw (run_shape-three_pops ops empty, run_shape)

  -- Whatever has been called before, at most two events wait: of three pops in a row the last one at
  -- the latest dereferences a null head, however many events were pushed.
  pub popped-three_pops :
      (ops : List (Op Param)) → popped (run (ops ++ pop ∷ pop ∷ pop ∷ []) initial) ≡ none
  popped-three_pops ops =
      popped-run (ops ++ pop ∷ pop ∷ pop ∷ []) ∙ ap popped_shape (run_shape-three_pops ops empty)
