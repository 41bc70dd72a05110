-- ===== src/Event/Shape.antt =====
-- What the queue of src/event/event.cpp really is: a machine with four shapes. `tail` is set by a
-- push onto an empty queue only, so every later entry is linked behind the same one.
use guthi_core.Base.{Option, none, some, List, [], ◌∷◌}
use guthi_core.Event.{EventHandler, Op, push, pop}

pub data Shape (Param : Type 0) : Type 0 where
  empty : Shape Param
  -- `head` and `tail` are one entry
  single : EventHandler Param → Shape Param
  -- `head` and `tail` are one entry, and another follows it
  double : EventHandler Param → EventHandler Param → Shape Param
  -- `head` is the last entry, `tail` an entry popped before it
  stale : EventHandler Param → Shape Param

module _ {Param : Type 0} where
  -- The handlers that wait, in the order in which they are popped.
  abbrev pub pending : Shape Param → List (EventHandler Param)
  pending empty = []
  pending (single h) = h ∷ []
  pending (double h g) = h ∷ g ∷ []
  pending (stale h) = h ∷ []

  abbrev pub push_shape : EventHandler Param → Shape Param → Shape Param
  push_shape v empty = single v
  push_shape v (single h) = double h v
  push_shape v (double h g) = double h v
  push_shape v (stale h) = stale h

  abbrev pub pop_shape : Shape Param → Option (EventHandler Param × Shape Param)
  pop_shape empty = none
  pop_shape (single h) = some (h, empty)
  pop_shape (double h g) = some (h, stale g)
  pop_shape (stale h) = some (h, empty)

  unfoldable pub run_shape :
      List (Op Param) → Shape Param → Option (List (EventHandler Param) × Shape Param)
  run_shape [] s = some ([], s)
  run_shape (push e f ∷ ops) s = run_shape ops (push_shape (record { event = e; handler = f }) s)
  run_shape (pop ∷ ops) s = elim (pop_shape s) [
    | none ↦ none
    | some (h, s') ↦ elim (run_shape ops s') [ none ↦ none | some (hs, r) ↦ some (h ∷ hs, r) ]
  ]
