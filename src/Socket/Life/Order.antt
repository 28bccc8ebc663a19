-- ===== src/Socket/Life/Order.antt =====
-- What SendData was given from outside the write thread reaches the system in order.
use mathlib.Core.List.{append_assoc}
use message_bus_all_in_one_f.Memory.Yields.{false-true, Yields, Yields-bind}
use message_bus_all_in_one_f.Common.{
  ℕ, true, false, not, ◌||◌, ◌≡◌, refl, sym, ap, ◌∙◌, Bool-cases, inl, inr, List, [], ◌∷◌, ◌++◌,
}
use message_bus_all_in_one_f.Memory.{Outcome, done, ◌>>=◌}
use message_bus_all_in_one_f.Socket.State.{
  TcpSock, can_send, is_closed, loop, write_loop, LoopTask, add_and_update, update_sock, close_sock,
  WriteTask, send, World,
}
use message_bus_all_in_one_f.Socket.Update.{add_and_update_event, waiter_update, close}
use message_bus_all_in_one_f.Socket.Send.{WriteResult, send_data_in_loop}
use message_bus_all_in_one_f.Socket.Flow.{Valid, Flow, is_open, outgoing, queued, quiet, Flow-refl}
use message_bus_all_in_one_f.Socket.Flow.Events.{
  add_and_update_event_flow, waiter_update_flow, after, close_flow,
}
use message_bus_all_in_one_f.Socket.Flow.Sending.{send_in_loop_open, send_in_loop_lost, Pushed}
use message_bus_all_in_one_f.Socket.Life.{Life, run_loop_task, go_on}

-- The bytes given are those that went out or are in the buffer, and the rest of them, which is what
-- is queued as long as the socket is open.
pub record Order (l : Life) : Type 0 where
  pub valid : Valid l.world
  pub rest : List ℕ
  pub order : l.given ≡ outgoing l.world ++ rest
  pub waiting : is_open l.world.sock ≡ true → rest ≡ queued l.world.write_tasks

queued_send : (bytes : List ℕ) (ts : List WriteTask) → queued (send bytes ∷ ts) ≡ bytes ++ queued ts
unfolding queued
queued_send bytes ts = refl

-- A flow keeps the order.
pub Flow-Order : (l : Life) (w : World) → Order l → Flow l.world w → Order (go_on l w)
Flow-Order l w o f = record {
  valid = f.valid;
  rest = f.dropped ++ o.rest;
  order = o.order ∙ (ap (λ xs. xs ++ o.rest) f.order ∙ append_assoc (outgoing w) f.dropped o.rest);
  waiting = λ h. rw (f.nothing_dropped h) (o.waiting (f.open_before h) ∙ sym f.tasks);
}

-- A step that only flows.
pub flowing :
    (l : Life) (m : Outcome World)
    → Order l
    → Yields (Flow l.world) m
    → Yields Order (m >>= λ w. done (go_on l w))
flowing l m o f =
    Yields-bind (Flow l.world) Order m (λ w. done (go_on l w)) f (λ w g. Flow-Order l w o g)

-- The next task is off its queue.
loop_task_flow : (ts : List LoopTask) (w : World) → Valid w → Flow w (record w { loop_tasks = ts })
loop_task_flow ts w v = quiet w (record w { loop_tasks = ts }) v refl refl refl refl (λ h. h) refl

pub run_loop_task_flow :
    (ts : List LoopTask) (w : World) → Valid w → Yields (Flow w) (run_loop_task ts w)
unfolding run_loop_task
run_loop_task_flow [] w v = Flow-refl v
run_loop_task_flow (add_and_update ev ∷ ts) w v =
    after (add_and_update_event loop ev _) (loop_task_flow ts w v)
      (add_and_update_event_flow loop ev _)
run_loop_task_flow (update_sock ∷ ts) w v =
    after (waiter_update loop _) (loop_task_flow ts w v) (waiter_update_flow loop _)
run_loop_task_flow (close_sock b ∷ ts) w v =
    after (close loop b _) (loop_task_flow ts w v) (close_flow loop b _)

-- An open socket passes both tests of SendDataInLoop; one that is not fails one of them.
pub open_parts : (s : TcpSock) → is_open s ≡ true → (is_closed s ≡ false) × (can_send s ≡ true)
unfolding is_open
open_parts s h = elim (Bool-cases (is_closed s)) [
  | inl c ↦ absurd (false-true (rw c at h))
  | inr c ↦ (c, rw c at h)
]

pub not_open : (s : TcpSock) → is_open s ≡ false → (is_closed s || not (can_send s)) ≡ true
unfolding is_open
not_open s h = elim (Bool-cases (is_closed s)) [
  | inl c ↦ rw c refl
  | inr c ↦ rw (c, (rw c at h)) refl
]

-- A SendDataInLoop task that finds the socket open.
pub send_task :
    (l : Life) (bytes : List ℕ) (ts : List WriteTask) (rs : List WriteResult)
    → Order l
    → l.world.write_tasks ≡ send bytes ∷ ts
    → Yields Order (
        send_data_in_loop write_loop bytes rs (record l.world { write_tasks = ts }) >>= λ w.
        done (go_on l w))
send_task l bytes ts rs o e = elim (Bool-cases (is_open l.world.sock)) [
  | inl yes_open ↦
      let (c, s) = open_parts l.world.sock yes_open in
      let (w₁, p, f) = send_in_loop_open write_loop bytes rs w v c s in
      flowing (go_on l w₁) (send_data_in_loop write_loop bytes rs w) (pushed w₁ p yes_open) f
  | inr no_open ↦
      flowing (go_on l w) (send_data_in_loop write_loop bytes rs w)
        (record {
          valid = v;
          rest = o.rest;
          order = o.order;
          waiting = λ h. absurd (false-true (sym no_open ∙ h));
        })
        (send_in_loop_lost write_loop bytes rs w v (not_open l.world.sock no_open))
]
  where
    w : World
    w = record l.world { write_tasks = ts }

    v : Valid w
    v = record {
      in_valid = o.valid.in_valid;
      out_valid = o.valid.out_valid;
      release = o.valid.release;
    }

    pushed : (w₁ : World) → Pushed bytes w w₁ → is_open l.world.sock ≡ true → Order (go_on l w₁)
    pushed w₁ p h = record {
      valid = p.valid;
      rest = queued ts;
      order =
          o.order
          ∙ (ap (λ xs. outgoing l.world ++ xs) (o.waiting h ∙ ap queued e ∙ queued_send bytes ts)
              ∙ (sym (append_assoc (outgoing l.world) bytes (queued ts))
                  ∙ ap (λ xs. xs ++ queued ts) (sym p.appended)));
      waiting = λ g. ap queued (sym p.as_queued);
    }
