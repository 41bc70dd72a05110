-- ===== src/Daemon/Portable.antt =====
-- The two implementations of `ReadNonBlocking`, in src/daemon/linux_pipe.cpp and
-- src/daemon/win32_daemon_impl.cpp.
use guthi_core.Base.{
  ℕ, zero, suc, ◌≤◌, ◌≡◌, ◌⊎◌, ◌==◌, true, none, some, refl, ap, inl, inr, List, [], ◌∷◌, arith,
  ltb, Bool-cases, length, take, drop,
}
use guthi_core.Daemon.Loop.{Meanwhile}
use guthi_core.Daemon.Pipe.{Pipe, read_message, read_non_blocking, read_non_blocking_win32}
use guthi_core.Tracker.State.{FileTracker}

module _ {ℓ} {A : Type ℓ} where
  pub take-all : (n : ℕ) (xs : List A) → length xs ≤ n → take n xs ≡ take (length xs) xs
  take-all zero [] h = refl
  take-all (suc n) [] h = refl
  take-all zero (x ∷ xs) h = absurd (omega arith)
  take-all (suc n) (x ∷ xs) h = ap (◌∷◌ x) (take-all n xs (omega arith))

  drop-all : (n : ℕ) (xs : List A) → length xs ≤ n → drop n xs ≡ drop (length xs) xs
  drop-all zero [] h = refl
  drop-all (suc n) [] h = refl
  drop-all zero (x ∷ xs) h = absurd (omega arith)
  drop-all (suc n) (x ∷ xs) h = drop-all n xs (omega arith)

read_message-all :
    (max : ℕ) (p : Pipe)
    → length p.incoming ≤ max
    → read_message max p ≡ read_message (length p.incoming) p
unfolding read_message
read_message-all max p h =
    rw (read_message, take-all max p.incoming h, drop-all max p.incoming h) refl

-- `ReadNonBlocking` answers the same on Linux and on Windows, and leaves the pipe in the same state,
-- unless the other end has been closed and nothing waits that it has sent, and the system can be asked
-- for the number of bytes: then the answer is 0 on Linux, and -1 on Windows.
pub read_non_blocking-win32 :
    (max : ℕ) (p : Pipe)
    → (read_non_blocking max p ≡ read_non_blocking_win32 max p)
      ⊎ ((p.closed ≡ true)
          × (length p.incoming ≡ 0)
          × (p.can_ask ≡ true)
          × (read_non_blocking max p ≡ (some [], p))
          × (read_non_blocking_win32 max p ≡ (none, p)))
unfolding read_non_blocking read_non_blocking_win32
read_non_blocking-win32 max p = elim (Bool-cases p.can_ask) [
  | inr asked ↦ inl (rw asked refl)
  | inl asked ↦ elim (Bool-cases (length p.incoming == 0)) [
    | inl empty ↦ elim (Bool-cases p.closed) [
      | inl closed ↦
          inr (closed, ground arith, asked, rw (asked, empty) refl, rw (asked, empty, closed) refl)
      | inr opened ↦ inl (rw (asked, empty, opened) refl)
    ]
    | inr waits ↦ elim (Bool-cases (ltb max (length p.incoming))) [
      | inl e ↦ inl (elim (Bool-cases p.closed) [
        | inl c ↦ simp (asked, waits, c, e) refl
        | inr c ↦ simp (asked, waits, c, e) refl
      ])
      | inr e ↦ inl (elim (Bool-cases p.closed) [
        | inl c ↦ simp (asked, waits, c, e, read_message-all max p (ground arith)) refl
        | inr c ↦ simp (asked, waits, c, e, read_message-all max p (ground arith)) refl
      ])
    ]
  ]
]

-- Nothing happens between two turns.
abbrev pub quiet : {W : Type 0} → FileTracker W → Meanwhile W
quiet t = record { arrived = []; listened = t }
