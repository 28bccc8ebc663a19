-- ===== src/Socket/State.antt =====
-- The event masks of Core/SockEvent.hpp, the fields of TcpSock and its constructors, and what stands
-- around one socket: the task queues of its two threads, the events that epoll holds for it, the
-- callbacks that were called, and the bytes that the system took.
use message_bus_all_in_one_f.Common.{
  ℕ, ◌*◌, Bool, true, false, not, ◌&&◌, ◌||◌, Option, none, some, List, [], ◌∷◌, ◌++◌,
  if◌then◌else◌,
}
use message_bus_all_in_one_f.FastBuffer.{FastBuffer, new_buffer}

-- EventResult: the bits 1, 2 and 4.
pub record EventResult : Type 0 where
  pub read : Bool
  pub write : Bool
  pub exception : Bool

abbrev pub ev_noevent : EventResult
ev_noevent = record { read = false; write = false; exception = false }

abbrev pub ev_read : EventResult
ev_read = record { read = true; write = false; exception = false }

abbrev pub ev_write : EventResult
ev_write = record { read = false; write = true; exception = false }

abbrev pub ev_exception : EventResult
ev_exception = record { read = false; write = false; exception = true }

unfoldable pub has_any : EventResult → Bool
has_any ev = ev.read || (ev.write || ev.exception)

unfoldable pub has_event : EventResult → EventResult → Bool
has_event ev er = (ev.read && er.read) || ((ev.write && er.write) || (ev.exception && er.exception))

unfoldable pub add_event : EventResult → EventResult → EventResult
add_event ev er = record {
  read = ev.read || er.read;
  write = ev.write || er.write;
  exception = ev.exception || er.exception;
}

unfoldable pub remove_event : EventResult → EventResult → EventResult
remove_event ev er = record {
  read = ev.read && not er.read;
  write = ev.write && not er.write;
  exception = ev.exception && not er.exception;
}

-- Which callbacks of SockHandler are set.
pub record SockHandler : Type 0 where
  pub on_close : Bool
  pub on_read : Bool
  pub on_send : Bool
  pub on_error : Bool
  pub on_timeout : Bool

abbrev pub no_handler : SockHandler
no_handler = record {
  on_close = false;
  on_read = false;
  on_send = false;
  on_error = false;
  on_timeout = false;
}

-- BLOCK_SIZE, MAX_BUF_SIZE and ALIVE_NUM.
abbrev pub block_size : ℕ
block_size = 1024 * 8

abbrev pub max_buf_size : ℕ
max_buf_size = block_size * 64 * 8

abbrev pub alive_num : ℕ
alive_num = 5

-- EPIPE
abbrev pub epipe : ℕ
epipe = 32

-- `none` stands for -1, and for a null m_evloop where `evloop` is false.
pub record TcpSock : Type 0 where
  pub inbuf : FastBuffer
  pub outbuf : FastBuffer
  pub sockcb : SockHandler
  pub fd : Option ℕ
  pub writeable : Bool
  pub allow_more_send : Bool
  pub isclosing : Bool
  pub sockev : EventResult
  pub caredev : EventResult
  pub alive_counter : Option ℕ
  pub last_errno : ℕ
  pub host_ip : List ℕ
  pub host_port : ℕ
  pub timeout_ms : Option ℕ
  pub timeout_renew : ℕ
  pub is_timeout_need : Bool
  pub evloop : Bool
  pub tmp_blocksize : ℕ
  pub need_renew_timeout : Bool

-- What the constructors leave unset: m_errno, m_timeout_renew, need_renew_timeout_ and the port.
pub record Unset : Type 0 where
  pub any_errno : ℕ
  pub any_renew : ℕ
  pub any_need : Bool
  pub any_port : ℕ

-- TcpSock()
unfoldable pub new_sock : Unset → TcpSock
new_sock u = record {
  inbuf = new_buffer;
  outbuf = new_buffer;
  sockcb = no_handler;
  fd = none;
  writeable = false;
  allow_more_send = false;
  isclosing = true;
  sockev = ev_noevent;
  caredev = ev_noevent;
  alive_counter = none;
  last_errno = u.any_errno;
  host_ip = [];
  host_port = u.any_port;
  timeout_ms = none;
  timeout_renew = u.any_renew;
  is_timeout_need = false;
  evloop = false;
  tmp_blocksize = block_size;
  need_renew_timeout = u.any_need;
}

-- TcpSock(fd, ip, port)
unfoldable pub accepted_sock : Unset → ℕ → List ℕ → ℕ → TcpSock
accepted_sock u n ip port = record (new_sock u) {
  fd = some n;
  writeable = true;
  allow_more_send = true;
  isclosing = false;
  alive_counter = some alive_num;
  host_ip = ip;
  host_port = port;
}

unfoldable pub is_closed : TcpSock → Bool
is_closed s = elim s.fd [ none ↦ true | some n ↦ s.isclosing ]

-- Writeable
unfoldable pub can_send : TcpSock → Bool
can_send s = s.writeable && s.allow_more_send

-- The thread that makes a call: the event loop's, its write thread, or one outside.
pub data Thread : Type 0 where
  loop : Thread
  write_loop : Thread
  outside : Thread

abbrev pub in_loop : Thread → Bool
in_loop loop = true
in_loop write_loop = false
in_loop outside = false

abbrev pub in_write_loop : Thread → Bool
in_write_loop loop = false
in_write_loop write_loop = true
in_write_loop outside = false

-- The calls that are bound and queued: AddAndUpdateEvent, SockWaiterBase::UpdateTcpSock and Close
-- for the loop thread, ShutDownWrite and SendDataInLoop for the write thread.
pub data LoopTask : Type 0 where
  add_and_update : EventResult → LoopTask
  update_sock : LoopTask
  close_sock : Bool → LoopTask

pub data WriteTask : Type 0 where
  shut_down : WriteTask
  send : List ℕ → WriteTask

-- A callback that was called; onRead with the bytes that it was shown.
pub data Called : Type 0 where
  closed : Called
  readable : List ℕ → Called
  sent : Called
  failed : Called
  timed_out : Called

pub record World : Type 0 where
  pub sock : TcpSock
  -- Whether the assertions are compiled in (NDEBUG is not defined).
  pub debug : Bool
  pub loop_tasks : List LoopTask
  pub write_tasks : List WriteTask
  -- The events that epoll watches the descriptor for.
  pub watched : EventResult
  -- Whether m_waiting_tcpsocks holds the socket.
  pub waiting : Bool
  pub calls : List Called
  -- The bytes that `write` took, in order, and whether the sending side was shut down.
  pub wire : List ℕ
  pub fin : Bool
  -- Whether O_NONBLOCK was set on the descriptor.
  pub nonblock : Bool

abbrev pub call : Called → World → World
call c w = record w { calls = w.calls ++ (c ∷ []) }

-- A callback that is called where it is set.
abbrev pub call_if : Bool → Called → World → World
call_if b c w = record w { calls = w.calls ++ (if b then c ∷ [] else []) }

-- A socket before anything has happened to it.
unfoldable pub new_world : Bool → TcpSock → World
new_world debug s = record {
  sock = s;
  debug = debug;
  loop_tasks = [];
  write_tasks = [];
  watched = ev_noevent;
  waiting = false;
  calls = [];
  wire = [];
  fin = false;
  nonblock = false;
}
