-- ===== src/Socket/Flow/Events.antt =====
-- The flow of the calls of Socket/Update.antt.
use mathlib.Core.List.{append-nil}
use message_bus_all_in_one_f.Memory.Yields.{Yields, Yields-if, Yields-eq, Yields-map, if-both}
use message_bus_all_in_one_f.Common.{
  ℕ, Bool, true, false, not, ◌&&◌, ◌≡◌, refl, sym, ap, ◌∙◌, Option-cases, inl, inr, none, some, [],
  ◌∷◌, ◌++◌, arith, if◌then◌else◌,
}
use message_bus_all_in_one_f.Memory.{Outcome, done}
use message_bus_all_in_one_f.FastBuffer.{clear, is_empty}
use message_bus_all_in_one_f.FastBuffer.Room.{content}
use message_bus_all_in_one_f.Socket.State.{
  EventResult, ev_noevent, ev_write, has_any, has_event, add_event, remove_event, can_send,
  is_closed, Thread, in_loop, in_write_loop, LoopTask, add_and_update, update_sock, close_sock,
  shut_down, World,
}
use message_bus_all_in_one_f.Socket.Update.{
  assert_that, queue_task_to_loop, queue_task_to_write_loop, update_tcp_sock_event, waiter_remove,
  update_tcp_sock_in_loop, waiter_update, add_tcp_sock, loop_update, add_and_update_event,
  remove_and_update_event, shut_down_write, dis_allow_send, loop_remove, closed_sock, close,
}
use message_bus_all_in_one_f.Socket.Flow.{
  Valid, Flow, is_open, queued, queued-append, still, quiet, Flow-refl, Flow-trans, Flow-bind,
}

assert_that-release : (b : Bool) (w : World) → w.debug ≡ false → assert_that b w ≡ done w
unfolding assert_that
assert_that-release b w e = rw e refl

pub assert_that_flow : (b : Bool) (w : World) → Valid w → Yields (Flow w) (assert_that b w)
assert_that_flow b w v = Yields-eq (Flow w) (assert_that-release b w v.release) (Flow-refl v)

update_event_gone :
    (w : World) → w.sock.fd ≡ none → w.debug ≡ false → update_tcp_sock_event w ≡ done w
unfolding update_tcp_sock_event
update_event_gone w e d = rw (e, d) refl

update_event_known :
    (w : World) (n : ℕ)
    → w.sock.fd ≡ some n
    → update_tcp_sock_event w ≡ done (record w { watched = w.sock.caredev })
unfolding update_tcp_sock_event
update_event_known w n e = rw e refl

update_event_flow : (w : World) → Valid w → Yields (Flow w) (update_tcp_sock_event w)
update_event_flow w v = elim (Option-cases w.sock.fd) [
  | inl e ↦ Yields-eq (Flow w) (update_event_gone w e v.release) (Flow-refl v)
  | inr (n, e) ↦
      Yields-eq (Flow w) (update_event_known w n e) (quiet w _ v refl refl refl refl (λ h. h) refl)
]

-- Another mask of events cared about.
abbrev cares : EventResult → World → World
cares ev w = record w { sock = record w.sock { caredev = ev } }

cares_flow : (ev : EventResult) (w : World) → Valid w → Flow w (cares ev w)
unfolding is_open can_send is_closed
cares_flow ev w v = quiet w (cares ev w) v refl refl refl refl (λ h. h) refl

-- A call on a world that a flow leads to.
pub after :
    {w w' : World} (o : Outcome World)
    → Flow w w'
    → ((v : Valid w') → Yields (Flow w') o)
    → Yields (Flow w) o
after {w} {w'} o f next = Yields-map (Flow w') (Flow w) o (λ a. Flow-trans f) (next f.valid)

waiter_remove_flow : (w : World) → Valid w → Yields (Flow w) (waiter_remove w)
unfolding waiter_remove
waiter_remove_flow w v =
    after (update_tcp_sock_event (cares ev_noevent w)) (cares_flow ev_noevent w v)
      (update_event_flow (cares ev_noevent w))

in_loop_flow : (w : World) → Valid w → Yields (Flow w) (update_tcp_sock_in_loop w)
unfolding update_tcp_sock_in_loop
in_loop_flow w v =
    Flow-bind (λ a. a) (λ a. a) w (update_tcp_sock_event w) _ (update_event_flow w v)
      (λ w₁ v₁.
        Yields-if (Flow w₁) (has_any w.sock.caredev) (done _) (waiter_remove w₁)
          (λ h. quiet w₁ (record w₁ { waiting = true }) v₁ refl refl refl refl (λ g. g) refl)
          (λ h. waiter_remove_flow w₁ v₁))

queue_task_to_loop_flow : (t : LoopTask) (w : World) → Valid w → Flow w (queue_task_to_loop t w)
unfolding queue_task_to_loop
queue_task_to_loop_flow t w v = quiet w (queue_task_to_loop t w) v refl refl refl refl (λ h. h) refl

pub waiter_update_flow : (t : Thread) (w : World) → Valid w → Yields (Flow w) (waiter_update t w)
unfolding waiter_update
waiter_update_flow t w v =
    Yields-if (Flow w) (in_loop t) (update_tcp_sock_in_loop w) _ (λ h. in_loop_flow w v)
      (λ h. queue_task_to_loop_flow update_sock w v)

pub add_tcp_sock_flow : (t : Thread) (w : World) → Valid w → Yields (Flow w) (add_tcp_sock t w)
unfolding add_tcp_sock is_open can_send is_closed
add_tcp_sock_flow t w v =
    after (waiter_update t _) (quiet w _ v refl refl refl refl (λ h. h) refl)
      (waiter_update_flow t _)

loop_update_flow : (t : Thread) (w : World) → Valid w → Yields (Flow w) (loop_update t w)
unfolding loop_update
loop_update_flow t w v =
    Flow-bind (λ a. a) (λ a. a) w (assert_that (in_loop t) w) _ (assert_that_flow (in_loop t) w v)
      (λ w₁ v₁. waiter_update_flow t w₁ v₁)

pub add_and_update_event_flow :
    (t : Thread) (ev : EventResult) (w : World)
    → Valid w
    → Yields (Flow w) (add_and_update_event t ev w)
unfolding add_and_update_event
add_and_update_event_flow t ev w v =
    let w' = cares (add_event w.sock.caredev ev) w in
    Yields-if (Flow w) w.sock.evloop _ (done w)
      (λ h.
        Yields-if (Flow w) (has_event w.sock.caredev ev) (done w) (loop_update t w')
          (λ g. Flow-refl v)
          (λ g. after (loop_update t w') (cares_flow _ w v) (loop_update_flow t w')))
      (λ h. Flow-refl v)

pub remove_and_update_event_flow :
    (t : Thread) (ev : EventResult) (w : World)
    → Valid w
    → Yields (Flow w) (remove_and_update_event t ev w)
unfolding remove_and_update_event
remove_and_update_event_flow t ev w v =
    let w' = cares (remove_event w.sock.caredev ev) w in
    Yields-if (Flow w) w.sock.evloop _ (done w)
      (λ h.
        Yields-if (Flow w) (has_event w.sock.caredev ev) (loop_update t w') (done w)
          (λ g. after (loop_update t w') (cares_flow _ w v) (loop_update_flow t w'))
          (λ g. Flow-refl v))
      (λ h. Flow-refl v)

shut_queued_flow : (w : World) → Valid w → Flow w (queue_task_to_write_loop shut_down w)
unfolding queue_task_to_write_loop queued
shut_queued_flow w v =
    quiet w (queue_task_to_write_loop shut_down w) v refl refl refl refl (λ h. h)
      (queued-append w.write_tasks (shut_down ∷ []) ∙ append-nil (queued w.write_tasks))

-- ShutDownWrite drops what is left in the buffer.
abbrev dropped_out : World → World
dropped_out w = record w {
  sock = record w.sock { writeable = false; outbuf = clear w.sock.outbuf };
  fin = true;
}

dropped_out_flow : (w : World) → Valid w → Flow w (dropped_out w)
unfolding clear is_open can_send is_closed
dropped_out_flow w v = record {
  valid = record {
    in_valid = v.in_valid;
    out_valid = record { read_le_write = omega arith; write_le_size = omega arith };
    release = v.release;
  };
  dropped = content w.sock.outbuf;
  order = ap (λ xs. xs ++ content w.sock.outbuf) (sym (append-nil w.wire));
  open_before = λ h. absurd (shut h);
  nothing_dropped = λ h. absurd (shut h);
  tasks = refl;
  more = [];
  on_wire = sym (append-nil w.wire);
}
  where
    shut : is_open (dropped_out w).sock ≡ true → ⊥
    shut h = unfold is_open can_send is_closed in ground arith

pub shut_down_write_flow : (t : Thread) (w : World) → Valid w → Flow w (shut_down_write t w)
unfolding shut_down_write
shut_down_write_flow t w v =
    if-both (Flow w) (is_closed w.sock) w _ (λ h. Flow-refl v)
      (λ h.
        if-both (Flow w) (w.sock.evloop && not (in_write_loop t)) _ (dropped_out w)
          (λ g. shut_queued_flow w v) (λ g. dropped_out_flow w v))

-- `m_allow_more_send = false`
abbrev refuse : World → World
refuse w = record w { sock = record w.sock { allow_more_send = false } }

refuse_flow : (w : World) → Valid w → Flow w (refuse w)
unfolding is_open can_send is_closed
refuse_flow w v =
    quiet w (refuse w) v refl refl refl refl
      (λ h. absurd (refused (is_closed w.sock) w.sock.writeable h)) refl
  where
    refused : (c b : Bool) → (if c then false else (b && false)) ≡ true → ⊥
    refused true b e = cc
    refused false true e = cc
    refused false false e = cc

pub dis_allow_send_flow : (t : Thread) (w : World) → Valid w → Yields (Flow w) (dis_allow_send t w)
unfolding dis_allow_send
dis_allow_send_flow t w v =
    let w₁ = refuse w in
    let f = refuse_flow w v in
    Yields-if (Flow w) w.sock.evloop _ (done w₁)
      (λ a.
        Yields-if (Flow w) (is_empty w.sock.outbuf) (done (shut_down_write t w₁)) _
          (λ b. Flow-trans f (shut_down_write_flow t w₁ f.valid))
          (λ b.
            Yields-if (Flow w) (in_loop t) (add_and_update_event t ev_write w₁) (done _)
              (λ c.
                after (add_and_update_event t ev_write w₁) f
                  (add_and_update_event_flow t ev_write w₁))
              (λ c. Flow-trans f (queue_task_to_loop_flow (add_and_update ev_write) w₁ f.valid))))
      (λ a. f)

loop_remove_flow : (t : Thread) (w : World) → Valid w → Yields (Flow w) (loop_remove t w)
unfolding loop_remove
loop_remove_flow t w v =
    Flow-bind (λ a. a) (λ a. a) w (assert_that (in_loop t) w) _ (assert_that_flow (in_loop t) w v)
      (λ w₁ v₁. waiter_remove_flow w₁ v₁)

-- Close keeps the bytes that were not sent, and takes no more.
closed_flow :
    (w : World) (b : Bool)
    → Valid w
    → Flow w (record w { sock = closed_sock (record w.sock { evloop = b }) })
unfolding closed_sock is_open can_send is_closed clear
closed_flow w b v =
    still
      (record {
        in_valid = record { read_le_write = omega arith; write_le_size = omega arith };
        out_valid = v.out_valid;
        release = v.release;
      })
      refl (λ h. cc) refl [] (sym (append-nil w.wire))

pub close_flow : (t : Thread) (b : Bool) (w : World) → Valid w → Yields (Flow w) (close t b w)
unfolding close
close_flow t b w v =
    Yields-if (Flow w) (is_closed w.sock) (done w) _ (λ h. Flow-refl v)
      (λ h.
        Yields-if (Flow w) (w.sock.evloop && not (in_loop t)) (done _) _
          (λ g. queue_task_to_loop_flow (close_sock b) w v)
          (λ g.
            Yields-if (Flow w) (w.sock.evloop && b) _ (done _)
              (λ r.
                Flow-bind (λ a. a) (λ a. a) w (loop_remove t w) _ (loop_remove_flow t w v)
                  (λ w₁ v₁. closed_flow w₁ false v₁))
              (λ r. closed_flow w w.sock.evloop v)))
