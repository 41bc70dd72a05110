-- ===== src/Daemon/Setup.antt =====
-- How src/daemon/linux_pipe.cpp makes the socket of the daemon and connects to it. `exit` is a result;
-- what is printed is left out.
use guthi_core.Base.{
  ℕ, suc, ◌+◌, Option, none, some, ◌∷◌, ◌++◌, ltb, if◌then◌else◌, length, take, drop, replicate,
  Bytes, codes, c_string,
}
use guthi_core.Tracker.State.{Ended, ok, exited, fault, ◌>>=◌}

-- The calls of the system, by the name of the socket; none is -1. `pw_dir` is the name of the home
-- directory.
pub record Sockets : Type 1 where
  pub World : Type 0
  pub pw_dir : Bytes
  pub socket : World → Option (ℕ × World)
  pub unlink : Bytes → World → World
  pub bind : ℕ → Bytes → World → Option World
  pub listen : ℕ → World → Option World
  pub accept : ℕ → World → Option (ℕ × World)
  pub connect : ℕ → Bytes → World → Option World

-- The size of `sun_path`.
abbrev pub sun_path_size : ℕ
sun_path_size = 108

abbrev pub pipe_name : Bytes
pipe_name = codes "/home/imsanskar/GUTHI_PIPE"

-- `strcpy` and `strcat` of a string into an array.
unfoldable pub strcpy : Bytes → Bytes → Ended Bytes
strcpy dest src =
    if ltb (length dest) (suc (length src))
    then fault
    else ok (src ++ 0 ∷ drop (suc (length src)) dest)

unfoldable pub strcat : Bytes → Bytes → Ended Bytes
unfolding strcpy
strcat dest src = strcpy dest (c_string dest ++ src)

-- `strncpy`, which fills up with zeros.
abbrev pub strncpy : ℕ → Bytes → Bytes
strncpy n src = take n (c_string src ++ replicate n 0)

unfoldable pub path_to_pipe : Bytes → Ended Bytes
unfolding strcat strcpy
path_to_pipe homedir =
    strcpy (replicate (length homedir + 14) 0) homedir >>= λ dest. strcat dest (codes "/GUTHI_PIPE")

module _ (s : Sockets) where
  -- `InitProcessCommunication`: the socket, and the `sun_path` that it is bound to.
  unfoldable pub init_process_communication : s.World → Ended (ℕ × (Bytes × s.World))
  unfolding path_to_pipe
  init_process_communication w = elim (s.socket w) [
    | none ↦ exited
    | some (pipe, w1) ↦ path_to_pipe s.pw_dir >>= λ path.
        let sun_path = strncpy sun_path_size path in
        elim (s.bind pipe sun_path (s.unlink sun_path w1)) [
          | none ↦ exited
          | some w2 ↦ ok (pipe, (sun_path, w2))
        ]
  ]

  unfoldable pub wait_for_connection : ℕ → s.World → Ended (ℕ × s.World)
  wait_for_connection sock w = elim (s.listen sock w) [
    | none ↦ exited
    | some w1 ↦ elim (s.accept sock w1) [ none ↦ exited | some (client, w2) ↦ ok (client, w2) ]
  ]

  -- `ConnectAsClient`: the socket, and the `sun_path` that it is connected to.
  unfoldable pub connect_as_client : s.World → Ended (ℕ × (Bytes × s.World))
  connect_as_client w =
      let sun_path = strncpy sun_path_size pipe_name in
      elim (s.socket w) [
        | none ↦ exited
        | some (in_socket, w1) ↦ elim (s.connect in_socket sun_path w1) [
          | none ↦ exited
          | some w2 ↦ ok (in_socket, (sun_path, w2))
        ]
      ]

  -- `LaunchAsDaemon`, which ignores its arguments, and whose description of a pipe is not read.
  abbrev pub launch_as_daemon : s.World → Ended (ℕ × (Bytes × s.World))
  launch_as_daemon w = init_process_communication w

  -- The start of `main` of src/daemon/runtime.cpp: the client's socket.
  unfoldable pub first_client : s.World → Ended (ℕ × s.World)
  unfolding init_process_communication wait_for_connection
  first_client w = launch_as_daemon w >>= λ (server, (_, w1)). wait_for_connection server w1
