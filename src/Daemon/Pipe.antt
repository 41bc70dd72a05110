-- ===== src/Daemon/Pipe.antt =====
-- src/daemon/linux_pipe.cpp and src/daemon/win32_daemon_impl.cpp: reads from the pipe and writes to
-- it. What the system calls answer is a parameter, the state of the pipe.
use guthi_core.Base.{
  ℕ, Bool, not, ◌&&◌, Option, none, some, [], ◌++◌, ltb, ◌==◌, if◌then◌else◌, length, take, drop,
  Bytes,
}

-- The bytes that wait for us and those that we have sent, whether the other end has been closed, and
-- whether the calls that ask for the number of bytes and that read them succeed otherwise.
pub record Pipe : Type 0 where
  pub incoming : Bytes
  pub outgoing : Bytes
  pub closed : Bool
  pub can_ask : Bool
  pub can_read : Bool

-- `read` and `ReadFile` of at most `max` bytes; none on failure.
abbrev read : ℕ → Pipe → Option (Bytes × Pipe)
read max p =
    if p.can_read
    then some (take max p.incoming, record p { incoming = drop max p.incoming })
    else none

-- `ReadMessage`: the bytes read; a failure reads none.
unfoldable pub read_message : ℕ → Pipe → Bytes × Pipe
read_message max p = elim (read max p) [ none ↦ ([], p) | some r ↦ r ]

-- `WriteMessage`
unfoldable pub write_message : Bytes → Pipe → Pipe
write_message msg p = record p { outgoing = p.outgoing ++ msg }

-- `ReadNonBlocking` on Linux; `none` is -1.
unfoldable pub read_non_blocking : ℕ → Pipe → Option Bytes × Pipe
unfolding read_message
read_non_blocking max p =
    if not p.can_ask
    then (none, p)
    else if length p.incoming == 0
    then (some [], p)
    else (let (bs, q) = read_message max p in (some bs, q))

-- Whether `PeekNamedPipe` succeeds: not once the other end is closed and all that it has sent is read,
-- where `FIONREAD` still succeeds and tells of 0 bytes.
abbrev pub can_peek : Pipe → Bool
can_peek p = p.can_ask && not (p.closed && length p.incoming == 0)

-- `ReadNonBlocking` on Windows, where the number of bytes asked for is at most that of those waiting.
unfoldable pub read_non_blocking_win32 : ℕ → Pipe → Option Bytes × Pipe
unfolding read_message
read_non_blocking_win32 max p =
    if not (can_peek p)
    then (none, p)
    else if length p.incoming == 0
    then (some [], p)
    else (let n = if ltb max (length p.incoming) then max else length p.incoming in
        let (bs, q) = read_message n p in (some bs, q))
