-- ===== src/Socket/Update.antt =====
-- The events that a socket is watched for, the shutdown of its sending side, and Close:
-- AddAndUpdateEvent, RemoveAndUpdateEvent, ShutDownWrite, DisAllowSend and Close of
-- Core/TcpSock.cpp, over UpdateTcpSock of Core/EventLoop.cpp and Core/SockWaiterBase.cpp.
use message_bus_all_in_one_f.Common.{
  Bool, true, false, not, ◌&&◌, none, some, [], ◌∷◌, ◌++◌, if◌then◌else◌,
}
use message_bus_all_in_one_f.Memory.{Outcome, done, aborted, ◌>>=◌}
use message_bus_all_in_one_f.FastBuffer.{is_empty, clear}
use message_bus_all_in_one_f.Socket.State.{
  EventResult, ev_noevent, ev_read, ev_write, ev_exception, has_any, has_event, add_event,
  remove_event, no_handler, TcpSock, is_closed, Thread, in_loop, in_write_loop, LoopTask,
  add_and_update, update_sock, close_sock, WriteTask, shut_down, World,
}

-- `assert`
unfoldable pub assert_that : Bool → World → Outcome World
assert_that b w = if w.debug && not b then aborted else done w

unfoldable pub queue_task_to_loop : LoopTask → World → World
queue_task_to_loop t w = record w { loop_tasks = w.loop_tasks ++ (t ∷ []) }

unfoldable pub queue_task_to_write_loop : WriteTask → World → World
queue_task_to_write_loop t w = record w { write_tasks = w.write_tasks ++ (t ∷ []) }

-- EpollWaiter::UpdateTcpSockEvent: the old registration goes, and the events cared about are
-- registered where there are any.
unfoldable pub update_tcp_sock_event : World → Outcome World
update_tcp_sock_event w = elim w.sock.fd [
  | none ↦ if w.debug then aborted else done w
  | some n ↦ done (record w { watched = w.sock.caredev })
]

-- SockWaiterBase::RemoveTcpSock, on the waiter's own thread.
unfoldable pub waiter_remove : World → Outcome World
waiter_remove w = update_tcp_sock_event (record w { sock = record w.sock { caredev = ev_noevent } })

unfoldable pub update_tcp_sock_in_loop : World → Outcome World
update_tcp_sock_in_loop w = do
  w₁ ← update_tcp_sock_event w
  if has_any w.sock.caredev then done (record w₁ { waiting = true }) else waiter_remove w₁

-- SockWaiterBase::UpdateTcpSock
unfoldable pub waiter_update : Thread → World → Outcome World
waiter_update t w =
    if in_loop t then update_tcp_sock_in_loop w else done (queue_task_to_loop update_sock w)

-- SockWaiterBase::AddTcpSock
unfoldable pub add_tcp_sock : Thread → World → Outcome World
add_tcp_sock t w =
    let ev = add_event (add_event w.sock.caredev ev_read) ev_exception in
    waiter_update t (record w { sock = record w.sock { caredev = ev; evloop = true } })

-- EventLoop::UpdateTcpSock
unfoldable pub loop_update : Thread → World → Outcome World
loop_update t w = do w₁ ← assert_that (in_loop t) w; waiter_update t w₁

unfoldable pub add_and_update_event : Thread → EventResult → World → Outcome World
add_and_update_event t ev w =
    if w.sock.evloop
    then (if has_event w.sock.caredev ev
        then done w
        else loop_update t
            (record w { sock = record w.sock { caredev = add_event w.sock.caredev ev } }))
    else done w

unfoldable pub remove_and_update_event : Thread → EventResult → World → Outcome World
remove_and_update_event t ev w =
    if w.sock.evloop
    then (if has_event w.sock.caredev ev
        then loop_update t
            (record w { sock = record w.sock { caredev = remove_event w.sock.caredev ev } })
        else done w)
    else done w

unfoldable pub shut_down_write : Thread → World → World
shut_down_write t w =
    if is_closed w.sock
    then w
    else if w.sock.evloop && not (in_write_loop t)
    then queue_task_to_write_loop shut_down w
    else record w {
      sock = record w.sock { writeable = false; outbuf = clear w.sock.outbuf };
      fin = true;
    }

unfoldable pub dis_allow_send : Thread → World → Outcome World
dis_allow_send t w =
    let w₁ = record w { sock = record w.sock { allow_more_send = false } } in
    if w.sock.evloop
    then (if is_empty w.sock.outbuf
        then done (shut_down_write t w₁)
        else if in_loop t
        then add_and_update_event t ev_write w₁
        else done (queue_task_to_loop (add_and_update ev_write) w₁))
    else done w₁

-- EventLoop::RemoveTcpSock
unfoldable pub loop_remove : Thread → World → Outcome World
loop_remove t w = do w₁ ← assert_that (in_loop t) w; waiter_remove w₁

-- What Close leaves of the socket's fields.
unfoldable pub closed_sock : TcpSock → TcpSock
closed_sock s = record s {
  inbuf = clear s.inbuf;
  sockcb = no_handler;
  fd = none;
  writeable = false;
  allow_more_send = false;
  isclosing = true;
  alive_counter = none;
  host_ip = [];
  is_timeout_need = false;
}

unfoldable pub close : Thread → Bool → World → Outcome World
close t needremove w =
    if is_closed w.sock
    then done w
    else if w.sock.evloop && not (in_loop t)
    then done (queue_task_to_loop (close_sock needremove) w)
    else if w.sock.evloop && needremove
    then (loop_remove t w >>= λ w₁.
        done (record w₁ { sock = closed_sock (record w₁.sock { evloop = false }) }))
    else done (record w { sock = closed_sock w.sock })
