-- ===== src/Event.antt =====
-- src/event/event.h and src/event/event.cpp: events, their handlers and the queue of unhandled
-- events. The queue is a chain of heap entries behind the pointers `head` and `tail`; an entry is
-- never freed, so an address is never given out twice.
pub mod Shape
pub mod Refine
pub mod Order
mod Examples
use guthi_core.Base.{
  ℕ, suc, Bool, true, false, Option, none, some, List, [], ◌∷◌, ◌==◌, if◌then◌else◌,
}

pub data EventType : Type 0 where
  nothing changed deleted : EventType

pub data EventStatus : Type 0 where
  error_status completed : EventStatus

-- `handle_status` is a `bool` that is given an `EventStatus`.
abbrev pub to_bool : EventStatus → Bool
to_bool error_status = false
to_bool completed = true

pub record Event : Type 0 where
  pub type : EventType
  pub handle_status : Bool
  pub mask : ℕ

abbrev pub same_type : EventType → EventType → Bool
same_type nothing nothing = true
same_type changed changed = true
same_type deleted deleted = true
same_type _ _ = false

-- What a handler's `void *` points to is a parameter.
abbrev pub Handler : Type 0 → Type 0
Handler Param = Param → EventStatus

-- `event` points to an event that the caller owns.
pub record EventHandler (Param : Type 0) : Type 0 where
  pub event : ℕ
  pub handler : Handler Param

pub record EventQueueEntry (Param : Type 0) : Type 0 where
  pub handler : EventHandler Param
  pub next : Option ℕ

-- The entries that `new` has given out, the next address, and the queue's two pointers.
pub record EventQueue (Param : Type 0) : Type 0 where
  pub entries : ℕ → Option (EventQueueEntry Param)
  pub fresh : ℕ
  pub head : Option ℕ
  pub tail : Option ℕ

module _ {Param : Type 0} where
  -- `handle_event<T>`, given the static type of `T`: the event's type decides, and the handler's
  -- status is stored in the event.
  pub handle_event : EventType → EventHandler Param → Param → (ℕ → Event) → Bool × (ℕ → Event)
  handle_event static h param events =
      if same_type (events h.event).type static
      then (
        true,
        λ p.
            if p == h.event
            then record (events p) { handle_status = to_bool (h.handler param) }
            else events p,
      )
      else (false, events)

  unfoldable pub write :
      (ℕ → Option (EventQueueEntry Param))
      → ℕ
      → EventQueueEntry Param
      → ℕ
      → Option (EventQueueEntry Param)
  write m p e a = if a == p then some e else m a

  abbrev pub initial : EventQueue Param
  initial = record { entries = λ _. none; fresh = 0; head = none; tail = none }

  -- `tail->next = entry`, behind the allocation; `none` is a null or dangling pointer.
  link_tail : EventQueue Param → ℕ → Option ℕ → Option (EventQueue Param)
  link_tail q entry none = none
  link_tail q entry (some t) = elim (q.entries t) [
    | none ↦ none
    | some e ↦ some (record q { entries = write q.entries t (record e { next = some entry }) })
  ]

  -- The entry is allocated, its handler bound and its `next` cleared (on both paths).
  abbrev allocate : EventQueue Param → EventHandler Param → EventQueue Param
  allocate q h = record q {
    entries = write q.entries q.fresh (record { handler = h; next = none });
    fresh = suc q.fresh;
  }

  push_at : EventQueue Param → EventHandler Param → Option ℕ → Option (EventQueue Param)
  unfolding link_tail write
  push_at q h none = some (record (allocate q h) { head = some q.fresh; tail = some q.fresh })
  push_at q h (some _) = link_tail (allocate q h) q.fresh q.tail

  unfoldable pub push_event : ℕ → Handler Param → EventQueue Param → Option (EventQueue Param)
  unfolding push_at
  push_event e f q = push_at q (record { event = e; handler = f }) q.head

  -- `head->…`: none at a null or dangling head.
  unfoldable pub deref : EventQueue Param → Option ℕ → Option (EventQueueEntry Param)
  deref q none = none
  deref q (some p) = q.entries p

  unfoldable pub pop_event : EventQueue Param → Option (EventHandler Param × EventQueue Param)
  unfolding deref
  pop_event q = elim (deref q q.head) [
    | none ↦ none
    | some e ↦ some (e.handler, record q { head = e.next })
  ]

  unfoldable pub get_event : EventQueue Param → Option (EventHandler Param)
  unfolding deref
  get_event q = elim (deref q q.head) [ none ↦ none | some e ↦ some e.handler ]

-- What the client calls: `push_event` and `pop_event`.
pub data Op (Param : Type 0) : Type 0 where
  push : ℕ → Handler Param → Op Param
  pop : Op Param

module _ {Param : Type 0} where
  -- A run of calls: the handlers that it has popped, and the last queue.
  unfoldable pub run :
      List (Op Param) → EventQueue Param → Option (List (EventHandler Param) × EventQueue Param)
  run [] q = some ([], q)
  run (push e f ∷ ops) q = elim (push_event e f q) [ none ↦ none | some q' ↦ run ops q' ]
  run (pop ∷ ops) q = elim (pop_event q) [
    | none ↦ none
    | some (h, q') ↦ elim (run ops q') [ none ↦ none | some (hs, r) ↦ some (h ∷ hs, r) ]
  ]
