-- ===== src/Daemon/ClientExamples.antt =====
-- src/daemon/runtime_client.cpp and src/daemon/win32_daemon_impl.cpp at concrete messages and systems.
use guthi_core.Base.{
  ℕ, ◌+◌, ◌≡◌, refl, true, some, [], ◌∷◌, ◌++◌, arith, replicate, Bytes, codes, equal,
}
use guthi_core.Daemon.Answer.{holding, echo_frame, client_round-turn}
use guthi_core.Daemon.Client.{
  post_message_to_daemon, string_at, message_received, print_received, client_round, first_message,
}
use guthi_core.Daemon.Loop.{DaemonState, running, turn}
use guthi_core.Daemon.Meeting.{IsCString}
use guthi_core.Daemon.Named.{
  NamedPipes, daemon_argument, continues, launch_exits, init_process_communication_win32,
  connect_as_client_win32, launch_as_daemon_win32, start_process, create_daemon_process,
}
use guthi_core.Tracker.State.{Inotify, file_tracker, ok, fault}

abbrev hello : Bytes
hello = 104 ∷ 105 ∷ []

abbrev empty_buffer : Bytes
empty_buffer = replicate 512 0

-- A message of the client, and what it prints of the answer.
hello-IsCString : IsCString hello
hello-IsCString = (refl, (refl, tt))

abbrev counting : Inotify
counting = record {
  Watches = ℕ;
  resolve = λ w name. 47 ∷ name;
  add_watch = λ w path mask. some (w, w + 1);
}

abbrev asked : DaemonState ℕ
asked = record { msg = empty_buffer; pipe = holding (echo_frame hello); tracker = file_tracker 1 }

client_round-turn_example :
    (s' : DaemonState ℕ) × (turn counting asked ≡ running s')
    × ((client_round (record { read_buffer = empty_buffer; pipe = holding s'.pipe.outgoing })).0
        ≡ message_received hello)
client_round-turn_example =
    client_round-turn counting asked empty_buffer hello (omega arith) hello-IsCString refl refl

-- The client's first message asks for more bytes than it has.
first_message_test : first_message (holding []) ≡ fault
unfolding post_message_to_daemon
first_message_test = refl

-- A number below 8 of bytes is printed as if no precision was given.
short_message_test : print_received 3 (replicate 9 65 ++ 0 ∷ []) ≡ message_received (65 ∷ [])
unfolding print_received string_at
short_message_test = refl

-- A system whose program is /g, and that counts the processes it starts.
abbrev named_pipes : NamedPipes
named_pipes = record {
  World = ℕ;
  create_named_pipe = λ name mode instances out into time w. (some 7, w);
  create_file = λ name w. (some 7, w);
  connect_named_pipe = λ handle w. w;
  get_module_file_name = λ size w. (codes "/g", (2, w));
  create_process = λ name line w. (true, w + 1);
}

init_process_communication_win32_test : launch_as_daemon_win32 named_pipes 0 ≡ ok (7, 0)
unfolding init_process_communication_win32
init_process_communication_win32_test = refl

connect_as_client_win32_test : connect_as_client_win32 named_pipes 0 ≡ ok (7, 0)
unfolding connect_as_client_win32
connect_as_client_win32_test = refl

first_process : create_daemon_process named_pipes (codes "guthi" ∷ []) 0 ≡ launch_exits 0 1
unfolding create_daemon_process start_process equal
first_process = refl

second_process : create_daemon_process named_pipes (daemon_argument ∷ []) 1 ≡ continues 1
unfolding create_daemon_process equal
second_process = refl
