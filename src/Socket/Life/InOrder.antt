-- ===== src/Socket/Life/InOrder.antt =====
-- Every life of a socket keeps the order of what SendData is given outside the write thread.
use mathlib.Core.List.{append-nil, append_assoc}
use message_bus_all_in_one_f.Memory.Yields.{false-true, Yields, Yields-if, Yields-bind, Yields-elim}
use message_bus_all_in_one_f.Common.{
  ℕ, Bool, true, false, not, ◌&&◌, ◌||◌, ◌≡◌, refl, sym, ap, ◌∙◌, List, [], ◌∷◌, ◌++◌, length, ltb,
  All, if◌then◌else◌,
}
use message_bus_all_in_one_f.Memory.{done, ◌>>=◌}
use message_bus_all_in_one_f.FastBuffer.Room.{content}
use message_bus_all_in_one_f.FastBuffer.Queue.{new_buffer-IsValid}
use message_bus_all_in_one_f.Socket.State.{
  Unset, new_sock, accepted_sock, can_send, is_closed, Thread, write_loop, in_write_loop, WriteTask,
  send, shut_down, World, new_world, max_buf_size, epipe,
}
use message_bus_all_in_one_f.Socket.Update.{queue_task_to_write_loop}
use message_bus_all_in_one_f.Socket.Send.{WriteResult, send_data}
use message_bus_all_in_one_f.Socket.Flow.{
  Valid, Flow, is_open, outgoing, queued, queued-append, quiet, Flow-refl, Flow-trans,
}
use message_bus_all_in_one_f.Socket.Flow.Events.{
  add_tcp_sock_flow, shut_down_write_flow, dis_allow_send_flow, close_flow,
}
use message_bus_all_in_one_f.Socket.Flow.Reading.{handle_event_flow}
use message_bus_all_in_one_f.Socket.Life.{
  Step, join, set_handler, give, refuse, shut, ready, handle, run_write, run_loop, Life,
  run_write_task, set_current_event, set_sock_handler, go_on, step, run,
}
use message_bus_all_in_one_f.Socket.Life.Order.{
  Order, Flow-Order, flowing, run_loop_task_flow, send_task,
}

shut_task_flow :
    (ts : List WriteTask) (w : World)
    → Valid w
    → w.write_tasks ≡ shut_down ∷ ts
    → Flow w (record w { write_tasks = ts })
unfolding queued
shut_task_flow ts w v e =
    quiet w (record w { write_tasks = ts }) v refl refl refl refl (λ h. h) (ap queued (sym e))

write_task-Order :
    (l : Life) (ts : List WriteTask) (rs : List WriteResult)
    → Order l
    → l.world.write_tasks ≡ ts
    → Yields Order (run_write_task ts rs l.world >>= λ w. done (go_on l w))
unfolding run_write_task
write_task-Order l [] rs o e = Flow-Order l l.world o (Flow-refl o.valid)
write_task-Order l (shut_down ∷ ts) rs o e =
    let f = shut_task_flow ts l.world o.valid e in
    Flow-Order l _ o (Flow-trans f (shut_down_write_flow write_loop _ f.valid))
write_task-Order l (send bytes ∷ ts) rs o e = send_task l bytes ts rs o e

-- A refused SendData changes at most the errno.
refused_flow :
    (n : ℕ) (w : World) → Valid w → Flow w (record w { sock = record w.sock { last_errno = n } })
unfolding is_open can_send is_closed
refused_flow n w v = quiet w _ v refl refl refl refl (λ h. h) refl

-- What SendData leaves, with whether it took the bytes.
given_after : Life → List ℕ → World × Bool → Life
given_after l bytes (w, ok) = record { world = w; given = if ok then l.given ++ bytes else l.given }

queued_one : (bytes : List ℕ) → queued (send bytes ∷ []) ≡ bytes
queued_one bytes = unfold queued in append-nil bytes

queueing-Order :
    (l : Life) (bytes : List ℕ)
    → Order l
    → Order (given_after l bytes (queue_task_to_write_loop (send bytes) l.world, true))
unfolding queue_task_to_write_loop given_after
queueing-Order l bytes o = record {
  valid = record {
    in_valid = o.valid.in_valid;
    out_valid = o.valid.out_valid;
    release = o.valid.release;
  };
  rest = o.rest ++ bytes;
  order = ap (λ xs. xs ++ bytes) o.order ∙ append_assoc (outgoing l.world) o.rest bytes;
  waiting = λ h.
      ap (λ xs. xs ++ bytes) (o.waiting h)
      ∙ (ap (λ xs. queued l.world.write_tasks ++ xs) (sym (queued_one bytes))
          ∙ sym (queued-append l.world.write_tasks (send bytes ∷ [])));
}

-- SendData from outside the write thread.
send_data-Order :
    (t : Thread) (bytes : List ℕ) (rs : List WriteResult) (l : Life)
    → in_write_loop t ≡ false
    → Order l
    → Yields (λ r. Order (given_after l bytes r)) (send_data t bytes rs l.world)
unfolding send_data given_after
send_data-Order t bytes rs l h o =
    let w = l.world in
    Yields-if P (not (ltb 0 (length bytes))) (done (w, false)) _ (λ a. o)
      (λ a.
        Yields-if P (is_closed w.sock || not (can_send w.sock)) (done _) _
          (λ b. Flow-Order l _ o (refused_flow epipe w o.valid))
          (λ b.
            Yields-if P (w.debug && ltb max_buf_size (length bytes)) (done _) _
              (λ c. Flow-Order l _ o (refused_flow 0 w o.valid))
              (λ c.
                Yields-if P (not w.sock.evloop) (done (w, false)) _ (λ d. o)
                  (λ d.
                    Yields-if P (not (in_write_loop t)) (done _) _ (λ e. queueing-Order l bytes o)
                      (λ e. absurd (false-true (sym e ∙ ap not h)))))))
  where
    P : World × Bool → Type 0
    P r = Order (given_after l bytes r)

-- Every SendData call is made outside the write thread.
abbrev pub OutsideWrite : Step → Type 0
OutsideWrite (give t bytes rs) = in_write_loop t ≡ false
OutsideWrite _ = Unit

step-Order : (s : Step) (l : Life) → OutsideWrite s → Order l → Yields Order (step s l)
unfolding step given_after is_open can_send is_closed set_sock_handler set_current_event
step-Order (join t) l h o = flowing l _ o (add_tcp_sock_flow t l.world o.valid)
step-Order (set_handler cb) l h o =
    Flow-Order l _ o (quiet l.world _ o.valid refl refl refl refl (λ g. g) refl)
step-Order (give t bytes rs) l h o =
    Yields-bind (λ r. Order (given_after l bytes r)) Order (send_data t bytes rs l.world) _
      (send_data-Order t bytes rs l h o) (λ r p. p)
step-Order (refuse t) l h o = flowing l _ o (dis_allow_send_flow t l.world o.valid)
step-Order (shut t b) l h o = flowing l _ o (close_flow t b l.world o.valid)
step-Order (ready ev) l h o =
    Flow-Order l _ o (quiet l.world _ o.valid refl refl refl refl (λ g. g) refl)
step-Order (handle t reads writes e) l h o =
    flowing l _ o (handle_event_flow t reads writes e l.world o.valid)
step-Order (run_write rs) l h o = write_task-Order l l.world.write_tasks rs o refl
step-Order run_loop l h o = flowing l _ o (run_loop_task_flow l.world.loop_tasks l.world o.valid)

run-Order : (ss : List Step) (l : Life) → All OutsideWrite ss → Order l → Yields Order (run ss l)
unfolding run
run-Order [] l h o = o
run-Order (s ∷ ss) l (h, hs) o =
    Yields-bind Order Order (step s l) (run ss) (step-Order s l h o)
      (λ l' o'. run-Order ss l' hs o')

-- An accepted connection in the release build, before any call.
abbrev pub fresh : Unset → ℕ → List ℕ → ℕ → Life
fresh u n ip port = record { world = new_world false (accepted_sock u n ip port); given = [] }

pub fresh-Order : (u : Unset) (n : ℕ) (ip : List ℕ) (port : ℕ) → Order (fresh u n ip port)
unfolding new_world accepted_sock new_sock
fresh-Order u n ip port = record {
  valid = record {
    in_valid = new_buffer-IsValid.0;
    out_valid = new_buffer-IsValid.0;
    release = refl;
  };
  rest = [];
  order = sym (append-nil _ ∙ new_buffer-IsValid.1);
  waiting = λ h. unfold queued in refl;
}

-- On a connection accepted by the release build, whatever the threads do, in any order, and whatever
-- the system answers, where SendData is called outside the write thread: no call fails, what the
-- system was given to send is the front of what SendData took, in order, and as long as the socket
-- is open what is missing is in the buffer and the write thread's queue, in order.
pub run_in_order :
    (u : Unset) (n : ℕ) (ip : List ℕ) (port : ℕ) (ss : List Step)
    → All OutsideWrite ss
    → (l : Life) × (run ss (fresh u n ip port) ≡ done l)
      × ((rest : List ℕ) × (l.given ≡ l.world.wire ++ rest))
      × (is_open l.world.sock ≡ true
          → l.given ≡ l.world.wire ++ (content l.world.sock.outbuf ++ queued l.world.write_tasks))
run_in_order u n ip port ss h =
    let (l, e, o) =
      Yields-elim Order (run ss (fresh u n ip port))
        (run-Order ss (fresh u n ip port) h (fresh-Order u n ip port)) in
    let c = content l.world.sock.outbuf in
    (
      l,
      e,
      (c ++ o.rest, o.order ∙ append_assoc l.world.wire c o.rest),
      λ g.
          o.order
          ∙ (append_assoc l.world.wire c o.rest
              ∙ ap (λ xs. l.world.wire ++ (c ++ xs)) (o.waiting g)),
    )
