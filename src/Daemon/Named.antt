-- ===== src/Daemon/Named.antt =====
-- How src/daemon/win32_daemon_impl.cpp makes the named pipe of the daemon, connects to it, and starts
-- a process in the background. Messages are left out.
use guthi_core.Base.{
  ℕ, Bool, true, not, Option, none, some, List, [], ◌∷◌, ◌==◌, if◌then◌else◌, Bytes, codes, equal,
}
use guthi_core.Tracker.State.{Ended, ok, exited}

pub data PipeMode : Type 0 where
  duplex inbound outbound : PipeMode

pub record PipeDesc : Type 0 where
  pub in_buffer_size : ℕ
  pub out_buffer_size : ℕ
  pub default_timeout : ℕ
  pub mode : PipeMode

-- The calls of Windows; none is an invalid handle. `create_named_pipe` has the name, the mode, the
-- number of instances, the sizes of both buffers and the time; `get_module_file_name` the size of the
-- buffer, and gives a name and the number of its bytes; `create_process` the name of the program and
-- its command line.
pub record NamedPipes : Type 1 where
  pub World : Type 0
  pub create_named_pipe : Bytes → ℕ → ℕ → ℕ → ℕ → ℕ → World → Option ℕ × World
  pub create_file : Bytes → World → Option ℕ × World
  pub connect_named_pipe : ℕ → World → World
  pub get_module_file_name : ℕ → World → Bytes × (ℕ × World)
  pub create_process : Bytes → Bytes → World → Bool × World

abbrev pub pipe_name_win32 : Bytes
pipe_name_win32 = codes "\\\\.\\pipe\\GUTHI_PIPE"

-- PIPE_ACCESS_DUPLEX, as the mode of the description is not read.
abbrev pub open_mode : ℕ
open_mode = 3

abbrev pub daemon_argument : Bytes
daemon_argument = codes "--daemon"

-- What `CreateDaemonProcess` comes to.
pub data Launched (W : Type 0) : Type 0 where
  continues : W → Launched W
  launch_exits : ℕ → W → Launched W
  launch_failed : W → Launched W
  launch_aborts : Launched W

-- `argc != 1 || strcmp(arg[0], "--daemon")`
abbrev pub starts_process : List Bytes → Bool
starts_process [] = true
starts_process (arg ∷ []) = not (equal arg daemon_argument)
starts_process (_ ∷ _ ∷ _) = true

module _ (n : NamedPipes) where
  unfoldable pub init_process_communication_win32 : PipeDesc → n.World → Ended (ℕ × n.World)
  init_process_communication_win32 desc w =
      let (pipe, w1) =
        n.create_named_pipe pipe_name_win32 open_mode 1 desc.out_buffer_size desc.in_buffer_size
          desc.default_timeout w in
      elim pipe [ none ↦ exited | some handle ↦ ok (handle, w1) ]

  unfoldable pub connect_as_client_win32 : n.World → Ended (ℕ × n.World)
  connect_as_client_win32 w =
      let (pipe, w1) = n.create_file pipe_name_win32 w in
      elim pipe [ none ↦ exited | some handle ↦ ok (handle, w1) ]

  -- `WaitForConnection`, whatever the call gives.
  abbrev pub wait_for_connection_win32 : ℕ → n.World → ℕ × n.World
  wait_for_connection_win32 handle w = (handle, n.connect_named_pipe handle w)

  abbrev pub launch_desc : PipeDesc
  launch_desc = record {
    in_buffer_size = 1024;
    out_buffer_size = 1024;
    default_timeout = 0;
    mode = duplex;
  }

  -- `LaunchAsDaemon`, where the call of `CreateDaemonProcess` is a comment.
  abbrev pub launch_as_daemon_win32 : n.World → Ended (ℕ × n.World)
  launch_as_daemon_win32 w = init_process_communication_win32 launch_desc w

  -- The branch of `CreateDaemonProcess` that starts a process; both its ways exit, with 0 or with -5.
  unfoldable pub start_process : Bytes → n.World → Launched n.World
  start_process self_name w =
      let (process_created, w1) = n.create_process self_name daemon_argument w in
      if process_created then launch_exits 0 w1 else launch_failed w1

  unfoldable pub create_daemon_process : List Bytes → n.World → Launched n.World
  unfolding start_process
  create_daemon_process args w =
      let (self_name, (size, w1)) = n.get_module_file_name 512 w in
      if size == 512
      then launch_aborts
      else if starts_process args
      then start_process self_name w1
      else continues w1
