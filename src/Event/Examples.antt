-- ===== src/Event/Examples.antt =====
-- The theorems about src/event/event.cpp at a few events.
use guthi_core.Base.{ℕ, ◌≡◌, refl, none, some, List, [], ◌∷◌, ◌++◌}
use guthi_core.Event.{
  completed, Handler, EventHandler, initial, Op, push, pop, run, pop_event, push_event, write,
}
use guthi_core.Event.Order.{Round, one, two, calls, pushed, popped, popped-calls, popped-three_pops}
use guthi_core.Event.Refine.{Agrees, at_empty, run-run_shape}
use guthi_core.Event.Shape.{empty, run_shape}

abbrev done : Handler (Unit {0})
done _ = completed

abbrev handler : ℕ → EventHandler (Unit {0})
handler e = record { event = e; handler = done }

abbrev three : List (Op (Unit {0}))
three = push 1 done ∷ push 2 done ∷ push 3 done ∷ pop ∷ pop ∷ []

run-run_shape_example : Agrees (run three initial) (run_shape three empty)
run-run_shape_example = run-run_shape three initial empty (at_empty refl)

-- The second of three events is lost.
lost : popped (run three initial) ≡ some (handler 1 ∷ handler 3 ∷ [])
unfolding run push_event pop_event write
lost = refl

abbrev rounds : List (Round (Unit {0}))
rounds = two (handler 1) (handler 2) ∷ one (handler 3) ∷ []

popped-calls_test : popped (run (calls rounds) initial) ≡ some (pushed rounds)
popped-calls_test = popped-calls rounds

popped-three_pops_example : popped (run (three ++ pop ∷ pop ∷ pop ∷ []) initial) ≡ none
popped-three_pops_example = popped-three_pops three
