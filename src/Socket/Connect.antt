-- ===== src/Socket/Connect.antt =====
-- Connect, SetNonBlock, SetCloseAfterExec and GetDestHost of Core/TcpSock.cpp. What the system calls
-- answer is a record.
pub mod Outcomes
use message_bus_all_in_one_f.Common.{
  ℕ, Bool, true, false, Option, none, some, List, [], ◌∷◌, ◌==◌, if◌then◌else◌,
}
use message_bus_all_in_one_f.Memory.{Outcome, done, ◌>>=◌}
use message_bus_all_in_one_f.Socket.State.{TcpSock, is_closed, alive_num, Thread, World}
use message_bus_all_in_one_f.Socket.Update.{assert_that, close}

-- The answer of `connect`: done, EINPROGRESS, or another errno.
pub data ConnectResult : Type 0 where
  connected : ConnectResult
  in_progress : ConnectResult
  refused : ℕ → ConnectResult

-- `fcntl` for one flag: the flags cannot be read, with an errno, or not be written, or the flag is set.
pub data FcntlResult : Type 0 where
  unreadable : ℕ → FcntlResult
  unwritable : FcntlResult
  flagged : FcntlResult

-- `socket`, `fcntl` for FD_CLOEXEC and for O_NONBLOCK, `connect`, `select`
-- (whether the descriptor is ready in time), SO_ERROR, and the errno in place after each failure.
pub record Answers : Type 0 where
  pub socket : Option ℕ
  pub socket_errno : ℕ
  pub cloexec : FcntlResult
  pub non_block : FcntlResult
  pub connects : ConnectResult
  pub select_ready : Bool
  pub select_errno : ℕ
  pub so_error : ℕ
  pub last_errno : ℕ

abbrev set_errno : ℕ → World → World
set_errno e w = record w { sock = record w.sock { last_errno = e } }

-- SetNonBlock on an open socket.
unfoldable pub flag_non_block : FcntlResult → World → World × Bool
flag_non_block (unreadable e) w = (set_errno e w, false)
flag_non_block unwritable w = (w, false)
flag_non_block flagged w = (record w { nonblock = true }, true)

unfoldable pub set_non_block : FcntlResult → World → World × Bool
set_non_block r w = if is_closed w.sock then (w, false) else flag_non_block r w

-- That the flag can be written is asserted.
unfoldable pub set_close_after_exec : FcntlResult → World → Outcome World
set_close_after_exec (unreadable e) w = done (set_errno e w)
set_close_after_exec unwritable w = assert_that false w
set_close_after_exec flagged w = done w

-- What a connection that succeeds sets.
unfoldable pub connected_sock : List ℕ → ℕ → TcpSock → TcpSock
connected_sock ip port s = record s {
  writeable = true;
  allow_more_send = true;
  isclosing = false;
  alive_counter = some alive_num;
  host_ip = ip;
  host_port = port;
}

-- From `select` on.
unfoldable pub await_connection : Thread → List ℕ → ℕ → Answers → World → Outcome (World × Bool)
await_connection t ip port a w =
    if a.select_ready
    then (if a.so_error == 0
        then done (record w { sock = connected_sock ip port w.sock }, true)
        else (close t true w >>= λ w₁. done (set_errno a.last_errno w₁, false)))
    else (close t true (set_errno a.select_errno w) >>= λ w₁. done (w₁, false))

-- From `connect` on.
unfoldable pub connecting :
    Thread → List ℕ → ℕ → Answers → ConnectResult → World → Outcome (World × Bool)
connecting t ip port a connected w = await_connection t ip port a w
connecting t ip port a in_progress w = await_connection t ip port a w
connecting t ip port a (refused e) w = done (set_errno e w, false)

unfoldable pub connect_to : Thread → List ℕ → ℕ → Answers → World → Outcome (World × Bool)
connect_to t ip port a w = do
  w₀ ← assert_that (elim w.sock.fd [ none ↦ true | some n ↦ false ]) w
  elim a.socket [
    | none ↦
        done (set_errno a.socket_errno (record w₀ { sock = record w₀.sock { fd = none } }), false)
    | some n ↦ do
      w₁ ← set_close_after_exec a.cloexec (record w₀ { sock = record w₀.sock { fd = some n } })
      connecting t ip port a a.connects (set_non_block a.non_block w₁).0
  ]

unfoldable pub get_dest_host : TcpSock → Option (List ℕ × ℕ)
get_dest_host s = elim s.host_ip [ [] ↦ none | c ∷ ip ↦ some (c ∷ ip, s.host_port) ]
