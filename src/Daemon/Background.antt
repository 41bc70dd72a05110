-- ===== src/Daemon/Background.antt =====
-- Which processes `CreateDaemonProcess` of src/daemon/win32_daemon_impl.cpp starts.
use guthi_core.Base.{
  ◌≡◌, ◌↔◌, refl, ap, ◌∙◌, sym, Bool, true, false, not, List, [], ◌∷◌, Bytes, equal, equal_iff,
  equal_refl, Bool-cases, inl, inr, ◌==◌, ◌<◌, arith,
}
use guthi_core.Daemon.Named.{
  NamedPipes, daemon_argument, Launched, continues, starts_process, start_process,
  create_daemon_process,
}

starts_process-daemon : starts_process (daemon_argument ∷ []) ≡ false
starts_process-daemon = rw (equal_refl daemon_argument) refl

only_daemon : (args : List Bytes) → starts_process args ≡ false → args ≡ daemon_argument ∷ []
only_daemon [] h = absurd (cc h)
only_daemon (arg ∷ []) h = elim (Bool-cases (equal arg daemon_argument)) [
  | inl e ↦ ap (λ a. a ∷ []) ((equal_iff arg daemon_argument).0 e)
  | inr e ↦ absurd (cc (sym (ap not e) ∙ h))
]
only_daemon (_ ∷ _ ∷ _) h = absurd (cc h)

module _ (n : NamedPipes) where
  -- Whether the caller goes on.
  abbrev launch_continues : Launched n.World → Bool
  launch_continues (continues w) = true
  launch_continues _ = false

  start_process-leaves :
      (self : Bytes) (w : n.World) → launch_continues (start_process n self w) ≡ false
  unfolding start_process
  start_process-leaves self w = elim (Bool-cases (n.create_process self daemon_argument w).0) [
    | inl e ↦ rw (start_process, e) refl
    | inr e ↦ rw (start_process, e) refl
  ]

  -- Where the name of the program is shorter than its buffer, `CreateDaemonProcess` returns to its
  -- caller exactly if the one argument of the process is the one that it hands to the process it
  -- starts; so the process that is started starts no other.
  pub create_daemon_process-goes_on :
      (args : List Bytes) (w : n.World)
      → (n.get_module_file_name 512 w).1.0 < 512
      → (launch_continues (create_daemon_process n args w) ≡ true) ↔ (args ≡ daemon_argument ∷ [])
  unfolding create_daemon_process
  create_daemon_process-goes_on args w short =
      let (self, (size, w1)) = n.get_module_file_name 512 w in
      let room : (size == 512) ≡ false = ground arith in
      elim (Bool-cases (starts_process args)) [
        | inl e ↦ (
          λ g.
              let left : launch_continues (create_daemon_process n args w) ≡ false =
                rw (room, e) (start_process-leaves self w1) in
              absurd (cc (g, left)),
          λ d. absurd (cc (e, ap starts_process d, starts_process-daemon)),
        )
        | inr e ↦ (λ g. only_daemon args e, λ d. rw (room, e) refl)
      ]
