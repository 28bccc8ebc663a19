-- ===== src/Socket/Life.antt =====
-- The life of a socket: calls from any thread, what the waiter reports, and the tasks that the loop
-- thread and the write thread take from their queues, in any order. A call and a task are one step
-- each; `given` collects the bytes of the SendData calls that answered true.
pub mod Order
pub mod InOrder
pub mod Shut
use message_bus_all_in_one_f.Common.{ℕ, Bool, List, [], ◌∷◌, ◌++◌, if◌then◌else◌}
use message_bus_all_in_one_f.Memory.{Outcome, done, ◌>>=◌}
use message_bus_all_in_one_f.Socket.State.{
  EventResult, ev_noevent, add_event, SockHandler, Thread, loop, write_loop, LoopTask,
  add_and_update, update_sock, close_sock, WriteTask, send, shut_down, World,
}
use message_bus_all_in_one_f.Socket.Update.{
  add_and_update_event, waiter_update, add_tcp_sock, shut_down_write, dis_allow_send, close,
}
use message_bus_all_in_one_f.Socket.Send.{WriteResult, send_data, send_data_in_loop}
use message_bus_all_in_one_f.Socket.Read.{ReadResult, handle_event}

pub data Step : Type 0 where
  -- AddTcpSock and SetSockHandler
  join : Thread → Step
  set_handler : SockHandler → Step
  -- SendData, DisAllowSend and Close
  give : Thread → List ℕ → List WriteResult → Step
  refuse : Thread → Step
  shut : Thread → Bool → Step
  -- ClearEvent and AddEvent by the waiter
  ready : EventResult → Step
  handle : Thread → List ReadResult → List WriteResult → ℕ → Step
  -- the next task of each thread
  run_write : List WriteResult → Step
  run_loop : Step

pub record Life : Type 0 where
  pub world : World
  pub given : List ℕ

unfoldable pub run_write_task : List WriteTask → List WriteResult → World → Outcome World
run_write_task [] rs w = done w
run_write_task (shut_down ∷ ts) rs w =
    done (shut_down_write write_loop (record w { write_tasks = ts }))
run_write_task (send bytes ∷ ts) rs w =
    send_data_in_loop write_loop bytes rs (record w { write_tasks = ts })

unfoldable pub run_loop_task : List LoopTask → World → Outcome World
run_loop_task [] w = done w
run_loop_task (add_and_update ev ∷ ts) w =
    add_and_update_event loop ev (record w { loop_tasks = ts })
run_loop_task (update_sock ∷ ts) w = waiter_update loop (record w { loop_tasks = ts })
run_loop_task (close_sock needremove ∷ ts) w = close loop needremove (record w { loop_tasks = ts })

unfoldable pub set_current_event : EventResult → World → World
set_current_event ev w = record w { sock = record w.sock { sockev = add_event ev_noevent ev } }

unfoldable pub set_sock_handler : SockHandler → World → World
set_sock_handler cb w = record w { sock = record w.sock { sockcb = cb } }

abbrev pub go_on : Life → World → Life
go_on l w = record l { world = w }

unfoldable pub step : Step → Life → Outcome Life
step (join t) l = add_tcp_sock t l.world >>= λ w. done (go_on l w)
step (set_handler cb) l = done (go_on l (set_sock_handler cb l.world))
step (give t bytes rs) l = do
  (w, ok) ← send_data t bytes rs l.world
  done (record { world = w; given = if ok then l.given ++ bytes else l.given })
step (refuse t) l = dis_allow_send t l.world >>= λ w. done (go_on l w)
step (shut t needremove) l = close t needremove l.world >>= λ w. done (go_on l w)
step (ready ev) l = done (go_on l (set_current_event ev l.world))
step (handle t reads writes e) l = handle_event t reads writes e l.world >>= λ w. done (go_on l w)
step (run_write rs) l = run_write_task l.world.write_tasks rs l.world >>= λ w. done (go_on l w)
step run_loop l = run_loop_task l.world.loop_tasks l.world >>= λ w. done (go_on l w)

unfoldable pub run : List Step → Life → Outcome Life
run [] l = done l
run (s ∷ ss) l = step s l >>= run ss
