-- ===== src/Daemon/Examples.antt =====
-- src/daemon at concrete messages.
use guthi_core.Base.{
  false, none, drop, suc, ◌<◌, ℕ, ◌+◌, ◌*◌, ◌≡◌, ◌↔◌, refl, true, some, [], ◌∷◌, ◌++◌, arith,
  length, take, replicate, Bytes, equal, ◌⊎◌, c_string, codes,
}
use guthi_core.Daemon.Dispatch.{
  sent, tracks, msg_length, track, dispatch_type, dispatch_request, dispatch_message,
}
use guthi_core.Daemon.Frames.{
  prepare_message-bytes, dispatch_message-reaction, dispatch_message-prepare_message, msg_length-eq,
}
use guthi_core.Daemon.Loop.{
  DaemonState, running, faulty, propagate, after_tracking, apply, received, turn, meet, start,
}
use guthi_core.Daemon.Pipe.{Pipe, read_message, read_non_blocking, read_non_blocking_win32}
use guthi_core.Daemon.Portable.{quiet, read_non_blocking-win32}
use guthi_core.Tracker.Maps.{insert_new, find}
use guthi_core.Tracker.State.{
  Inotify, FileTracker, file_tracker, filter_mask, find_last_of, watch, track_path, track_file,
  try_pop_change_info, pop_front,
}
use guthi_core.Daemon.Protocol.{
  echo_message, track_this_file, magic_bytes, frame, prepare_message, message_verified,
}
use guthi_core.Daemon.Meeting.{IsCString, init_process_communication-name, connect_as_client-meets}
use guthi_core.Daemon.Setup.{
  Sockets, sun_path_size, pipe_name, strcpy, strcat, strncpy, path_to_pipe,
  init_process_communication, connect_as_client, first_client, wait_for_connection,
}
use guthi_core.Daemon.Reach.{started, turned, waits, NextOverlong, turn-faulty}
use guthi_core.Daemon.Safety.{Harmless, dispatch_message-Harmless}
use guthi_core.Tracker.State.{ok, exited}

abbrev hello : Bytes
hello = 104 ∷ 105 ∷ []

abbrev empty_buffer : Bytes
empty_buffer = replicate 512 0

prepare_message-bytes_example :
    (buf' : Bytes) × (low high : ℕ) × (prepare_message empty_buffer echo_message hello 2
      ≡ some (10, buf'))
    × (take 5 buf' ≡ codes "HUTIJ")
    × (take 3 (drop 5 buf') ≡ 6 ∷ low ∷ high ∷ [])
    × (low < 256)
    × (high < 256)
    × (low + 256 * high ≡ 2)
    × (take 2 (drop 8 buf') ≡ take 2 hello)
    × (drop 10 buf' ≡ drop 10 empty_buffer)
prepare_message-bytes_example =
    prepare_message-bytes empty_buffer echo_message hello 2 (omega arith) (omega arith)
      (omega arith)

dispatch_message-reaction_example :
    dispatch_message (magic_bytes ++ 5 ∷ 2 ∷ 0 ∷ (hello ++ 0 ∷ [])) 10 ≡ tracks hello
dispatch_message-reaction_example =
    dispatch_message-reaction track_this_file 2 0 hello (0 ∷ []) (omega arith)

dispatch_message-prepare_message_example :
    (buf' : Bytes) × (prepare_message empty_buffer echo_message hello 2 ≡ some (10, buf'))
    × (dispatch_message buf' 10 ≡ sent (take 10 buf'))
dispatch_message-prepare_message_example =
    dispatch_message-prepare_message hello empty_buffer (omega arith) refl

abbrev two : ℕ
two = 2

msg_length-eq_test : (msg_length two 0 ≡ two + 256 * 0) ↔ (two ≡ 0)
msg_length-eq_test = msg_length-eq two 0 (omega arith) (omega arith)

abbrev track_hello : Bytes
track_hello = frame track_this_file hello 2

dispatch_message-Harmless_test : Harmless (dispatch_message track_hello 10)
dispatch_message-Harmless_test =
    dispatch_message-Harmless track_hello 10 (omega arith) (omega arith)

-- The client asks to track the file.
abbrev client : Pipe
client = record {
  incoming = track_hello;
  outgoing = [];
  closed = false;
  can_ask = true;
  can_read = true;
}

-- A system that counts its watches.
abbrev counting : Inotify
counting = record {
  Watches = ℕ;
  resolve = λ w name. 47 ∷ name;
  add_watch = λ w path mask. some (w, suc w);
}

abbrev idle : FileTracker ℕ
idle = file_tracker 1

abbrev tracking : DaemonState ℕ
tracking = record {
  msg = empty_buffer;
  pipe = record client { incoming = [] };
  tracker = record idle {
    watches = 2;
    name_to_file_handle = (hello, 1) ∷ [];
    handle_to_file_name = (1, hello) ∷ [];
  };
}

first_turn : turn counting (meet (quiet idle) (start client 1)) ≡ running tracking
unfolding turn read_non_blocking read_message received apply after_tracking propagate
    dispatch_message dispatch_request dispatch_type track message_verified equal track_file
    track_path watch find_last_of filter_mask insert_new find try_pop_change_info pop_front
first_turn = refl

turn-faulty_example :
    (turn counting (meet (quiet tracking.tracker) tracking) ≡ faulty)
    ↔ NextOverlong counting (meet (quiet tracking.tracker) tracking)
turn-faulty_example =
    turn-faulty counting {p = client} (turned (started 1) (quiet idle) (waits idle) first_turn)
      (quiet tracking.tracker) (waits tracking.tracker)

-- A name of 200 bytes has a path that is too long.
abbrev long_request : DaemonState ℕ
long_request = record tracking {
  pipe = record client { incoming = frame track_this_file (replicate 200 110) 200 };
}

long_name_test : turn counting long_request ≡ faulty
unfolding turn read_non_blocking read_message received apply after_tracking dispatch_message
    dispatch_request dispatch_type track message_verified equal track_file
long_name_test = refl

-- The client has gone.
abbrev left_alone : DaemonState ℕ
left_alone = record tracking { pipe = record client { incoming = []; closed = true } }

read_non_blocking-win32_test :
    (read_non_blocking 3 client ≡ read_non_blocking_win32 3 client)
    ⊎ ((client.closed ≡ true)
        × (length client.incoming ≡ 0)
        × (client.can_ask ≡ true)
        × (read_non_blocking 3 client ≡ (some [], client))
        × (read_non_blocking_win32 3 client ≡ (none, client)))
read_non_blocking-win32_test = read_non_blocking-win32 3 client

-- A system that refuses nothing and counts its sockets.
abbrev sockets : Sockets
sockets = record {
  World = ℕ;
  pw_dir = codes "/root";
  socket = λ w. some (w, w + 1);
  unlink = λ name w. w;
  bind = λ sock name w. some w;
  listen = λ sock w. some w;
  accept = λ sock w. some (w, w + 1);
  connect = λ sock name w. some w;
}

root-IsCString : IsCString (codes "/root")
root-IsCString = (refl, (refl, (refl, (refl, (refl, tt)))))

init_process_communication-name_test :
    (init_process_communication sockets 3 ≡ exited)
    ⊎ ((pipe : ℕ) × (sun_path : Bytes) × (w' : ℕ) × (init_process_communication sockets 3
          ≡ ok (pipe, (sun_path, w')))
        × (c_string sun_path ≡ codes "/root/GUTHI_PIPE"))
init_process_communication-name_test =
    init_process_communication-name sockets 3 root-IsCString (omega arith)

abbrev bound_path : Bytes
bound_path = strncpy sun_path_size (codes "/root/GUTHI_PIPE")

connect_as_client-meets_example :
    (c_string bound_path ≡ c_string (strncpy sun_path_size pipe_name))
    ↔ (codes "/root" ≡ codes "/home/imsanskar")
unfolding init_process_communication path_to_pipe strcat strcpy connect_as_client
connect_as_client-meets_example =
    connect_as_client-meets sockets 3 3 3 3 bound_path (strncpy sun_path_size pipe_name) 4 4
      root-IsCString (omega arith) refl refl

first_client_test : first_client sockets 3 ≡ ok (4, 5)
unfolding first_client init_process_communication path_to_pipe strcat strcpy wait_for_connection
first_client_test = refl
