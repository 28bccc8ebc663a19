-- ===== src/Tests/Sockets.antt =====
-- A socket run on small inputs.
use message_bus_all_in_one_f.Common.{
  ℕ, Bool, true, false, ◌≡◌, refl, some, List, [], ◌∷◌, ◌++◌, arith,
}
use message_bus_all_in_one_f.Memory.{done}
use message_bus_all_in_one_f.FastBuffer.{FastBuffer, new_buffer}
use message_bus_all_in_one_f.FastBuffer.Room.{content}
use message_bus_all_in_one_f.FastBuffer.Queue.{new_buffer-IsValid}
use message_bus_all_in_one_f.Socket.State.{
  ev_write, SockHandler, Unset, new_sock, accepted_sock, is_closed, can_send, loop, write_loop,
  outside, World, new_world,
}
use message_bus_all_in_one_f.Socket.Send.{takes, again, interrupted, do_send}
use message_bus_all_in_one_f.Socket.Read.{gets, no_more, next_blocksize, read_loop, handle_event}
use message_bus_all_in_one_f.Socket.Flow.{Valid, is_open, queued}
use message_bus_all_in_one_f.Socket.Stream.{Reads, read_loop_lem, chunks, runs_dry, untouched}
use message_bus_all_in_one_f.Socket.Life.{
  Step, join, set_handler, give, ready, handle, run_write, run_loop, Life, run,
}
use message_bus_all_in_one_f.Socket.Life.InOrder.{run_in_order, fresh}
use message_bus_all_in_one_f.Socket.Life.Shut.{run_shut}
use message_bus_all_in_one_f.Socket.Stall.{both_ready_stalls}
use message_bus_all_in_one_f.Socket.Drain.{do_send_drains, eager, rounds}
use message_bus_all_in_one_f.Socket.Connect.{Answers, connected, connect_to, flagged}
use message_bus_all_in_one_f.Socket.Connect.Outcomes.{connect_lem, succeeds, Ends}
use message_bus_all_in_one_f.Socket.Timeout.{set_timeout}
use message_bus_all_in_one_f.Socket.Timeout.Silence.{
  poll_all, poll_all_lem, alarms, all_calls, Spaced,
}

abbrev unset : Unset
unset = record { any_errno = 9; any_renew = 0; any_need = false; any_port = 0 }

abbrev handler : SockHandler
handler = record {
  on_close = true;
  on_read = true;
  on_send = false;
  on_error = true;
  on_timeout = true;
}

abbrev start : Life
start = fresh unset 7 (49 ∷ []) 80

-- Three bytes go out in two writes, and two are given while the first are on their way.
abbrev steps : List Step
steps =
    join loop
    ∷ set_handler handler
    ∷ give outside (1 ∷ 2 ∷ 3 ∷ []) []
    ∷ run_write (takes 2 true ∷ again ∷ [])
    ∷ give loop (4 ∷ 5 ∷ []) []
    ∷ run_loop
    ∷ ready ev_write
    ∷ handle write_loop [] (interrupted ∷ takes 9 true ∷ []) 0
    ∷ []

run_in_order_example :
    (l : Life) × (run steps start ≡ done l)
    × ((rest : List ℕ) × (l.given ≡ l.world.wire ++ rest))
    × (is_open l.world.sock ≡ true
        → l.given ≡ l.world.wire ++ (content l.world.sock.outbuf ++ queued l.world.write_tasks))
run_in_order_example =
    run_in_order unset 7 (49 ∷ []) 80 steps (tt, (tt, (refl, (tt, (refl, (tt, (tt, (tt, tt))))))))

-- Three bytes wait to be sent on a watched socket that is reported readable and writable.
abbrev waiting : FastBuffer
waiting = record { readstart = 0; writestart = 3; innerdata = 1 ∷ 2 ∷ 3 ∷ []; halfcounter = 0 }

abbrev busy : World
busy = record start.world {
  sock = record start.world.sock {
    sockcb = handler;
    outbuf = waiting;
    evloop = true;
    sockev = record { read = true; write = true; exception = false };
  };
}

busy-Valid : Valid busy
unfolding new_world accepted_sock new_sock
busy-Valid = record {
  in_valid = new_buffer-IsValid.0;
  out_valid = record { read_le_write = omega arith; write_le_size = omega arith };
  release = refl;
}

both_ready_stalls_example :
    (handle_event write_loop (gets (8 ∷ []) 1 ∷ []) (takes 3 true ∷ []) 0 busy ≡ done busy)
    × ((w' : World) × (handle_event loop (gets (8 ∷ []) 1 ∷ []) (takes 3 true ∷ []) 0 busy
          ≡ done w')
        × (w'.wire ≡ busy.wire)
        × (w'.sock.outbuf ≡ waiting))
unfolding new_world accepted_sock new_sock is_closed runs_dry
both_ready_stalls_example =
    both_ready_stalls (gets (8 ∷ []) 1 ∷ []) (takes 3 true ∷ []) 0 busy busy-Valid refl refl refl
      refl refl refl

-- Two reads; onRead uses one byte of two, and then both that are left.
read_loop_lem_example :
    (w' : World) × (read_loop loop (gets (8 ∷ 9 ∷ []) 1 ∷ gets (7 ∷ []) 2 ∷ no_more ∷ []) busy
      ≡ done (w', true))
    × Reads true [] ((8 ∷ 9 ∷ [], 1) ∷ (7 ∷ [], 2) ∷ []) [] [] (untouched busy) w'
unfolding new_world accepted_sock new_sock runs_dry chunks next_blocksize new_buffer
read_loop_lem_example =
    read_loop_lem loop (gets (8 ∷ 9 ∷ []) 1 ∷ gets (7 ∷ []) 2 ∷ no_more ∷ []) busy busy-Valid refl

do_send_drains_example :
    (r : World × Bool) × (do_send write_loop
        (takes 2 true ∷ interrupted ∷ takes 2 false ∷ takes 1 true ∷ [])
        busy
      ≡ done r)
    × (r.0.wire ≡ 1 ∷ 2 ∷ 3 ∷ [])
unfolding eager rounds new_world accepted_sock new_sock
do_send_drains_example =
    do_send_drains write_loop (takes 2 true ∷ interrupted ∷ takes 2 false ∷ takes 1 true ∷ []) busy
      busy-Valid (refl, (refl, (refl, (refl, tt)))) (omega arith)

-- A socket whose sending side is shut down.
abbrev shut_life : Life
shut_life = record {
  world = record busy { sock = record busy.sock { writeable = false } };
  given = 1 ∷ [];
}

run_shut_example :
    (l' : Life) × (run steps shut_life ≡ done l')
    × (is_open l'.world.sock ≡ false)
    × (l'.given ≡ 1 ∷ [])
unfolding new_world accepted_sock new_sock is_open is_closed can_send
run_shut_example =
    run_shut steps shut_life
      (record {
        in_valid = busy-Valid.in_valid;
        out_valid = busy-Valid.out_valid;
        release = busy-Valid.release;
      })
      refl

-- A host that does not answer in time.
abbrev silent : Answers
silent = record {
  socket = some 5;
  socket_errno = 0;
  cloexec = flagged;
  non_block = flagged;
  connects = connected;
  select_ready = false;
  select_errno = 115;
  so_error = 0;
  last_errno = 0;
}

connect_lem_example :
    (ok : Bool) × (ok ≡ succeeds silent)
    × ((w : World) × (connect_to outside (49 ∷ []) 80 silent (new_world false (new_sock unset))
          ≡ done (w, ok))
        × Ends silent w ok)
connect_lem_example = connect_lem outside (49 ∷ []) 80 silent unset

-- Polled at 60, 100, 101, 150 and 300 with a timeout of 100 set at 0: two alarms.
poll_all_lem_example :
    (w' : World) × (poll_all (60 ∷ 100 ∷ 101 ∷ 150 ∷ 300 ∷ []) (set_timeout 100 0 busy) ≡ done w')
    × (w'.calls ≡ all_calls (101 ∷ 300 ∷ []))
    × Spaced 0 100 (101 ∷ 300 ∷ [])
unfolding new_world accepted_sock new_sock alarms all_calls
poll_all_lem_example = poll_all_lem 100 0 (60 ∷ 100 ∷ 101 ∷ 150 ∷ 300 ∷ []) busy refl refl refl refl
