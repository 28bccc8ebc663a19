-- ===== src/Socket/Flow/Sending.antt =====
-- The flow of DoSend, and that SendDataInLoop appends to it.
use mathlib.Core.List.{append_assoc}
use message_bus_all_in_one_f.Memory.Yields.{Yields, Yields-if, Yields-eq, if-both}
use message_bus_all_in_one_f.Common.{
  ℕ, zero, suc, Bool, true, false, not, ◌&&◌, ◌||◌, ◌≡◌, refl, sym, ap, ◌∙◌, Bool-cases, inl, inr,
  List, [], ◌∷◌, ◌++◌, length, take, drop, length-take, arith, ◌==◌, if◌then◌else◌,
}
use message_bus_all_in_one_f.Memory.{done}
use message_bus_all_in_one_f.FastBuffer.{FastBuffer, is_empty}
use message_bus_all_in_one_f.FastBuffer.Room.{IsValid, content}
use message_bus_all_in_one_f.FastBuffer.Refines.{push_back_lem, pop_front_lem}
use message_bus_all_in_one_f.Socket.State.{
  ev_write, epipe, can_send, is_closed, Called, sent, failed, Thread, in_write_loop, World, call,
  call_if,
}
use message_bus_all_in_one_f.Socket.Update.{
  assert_that, add_and_update_event, remove_and_update_event, shut_down_write, dis_allow_send,
  close,
}
use message_bus_all_in_one_f.Socket.Send.{
  WriteResult, takes, again, interrupted, fails, written, take_out, renew_later, emptied,
  fail_write, wrote, do_send, send_data_in_loop,
}
use message_bus_all_in_one_f.Socket.Flow.{
  Valid, Flow, is_open, outgoing, still, quiet, Flow-refl, Flow-trans, Flow-bind,
}
use message_bus_all_in_one_f.Socket.Flow.Events.{
  add_and_update_event_flow, remove_and_update_event_flow, shut_down_write_flow,
  dis_allow_send_flow, close_flow, after,
}

taken : (n : ℕ) (xs : List ℕ) → take n xs ++ drop (length (take n xs)) xs ≡ xs
taken zero xs = refl
taken (suc n) [] = refl
taken (suc n) (x ∷ xs) = ap (λ ys. x ∷ ys) (taken n xs)

-- What `write` takes off the buffer is on the wire.
abbrev pub took : ℕ → FastBuffer → World → World
took n b w = record w { sock = record w.sock { outbuf = b }; wire = w.wire ++ written n w }

pub take_out_lem :
    (n : ℕ) (w : World)
    → Valid w
    → (b : FastBuffer) × (take_out n w ≡ done (took n b w))
      × IsValid b
      × (content b ≡ drop (length (written n w)) (content w.sock.outbuf))
unfolding take_out
take_out_lem n w v =
    let c = content w.sock.outbuf in
    let (b, e, bv, eq) =
      pop_front_lem w.sock.outbuf (length (take n c)) v.out_valid
        (omega (arith, length-take n c)) in
    (b, rw e refl, bv, eq)

-- No byte is lost on the way.
pub outgoing-took :
    (n : ℕ) (b : FastBuffer) (w : World)
    → content b ≡ drop (length (written n w)) (content w.sock.outbuf)
    → outgoing (took n b w) ≡ outgoing w
outgoing-took n b w eq =
    let c = content w.sock.outbuf in
    ap (λ xs. (w.wire ++ take n c) ++ xs) eq
    ∙ (append_assoc w.wire (take n c) (drop (length (take n c)) c)
        ∙ ap (λ xs. w.wire ++ xs) (taken n c))

take_out_flow : (n : ℕ) (w : World) → Valid w → Yields (Flow w) (take_out n w)
unfolding is_open can_send is_closed
take_out_flow n w v =
    let (b, e, bv, eq) = take_out_lem n w v in
    Yields-eq (Flow w) e (
      still {w = w} {w' = took n b w}
        (record { in_valid = v.in_valid; out_valid = bv; release = v.release })
        (outgoing-took n b w eq) (λ h. h) refl (written n w) refl)

pub renew_flow : (w : World) → Valid w → Flow w (renew_later w)
unfolding is_open can_send is_closed
renew_flow w v = quiet w (renew_later w) v refl refl refl refl (λ h. h) refl

pub call_flow : (c : Called) (w : World) → Valid w → Flow w (call c w)
call_flow c w v = quiet w (call c w) v refl refl refl refl (λ h. h) refl

pub call_if_flow : (b : Bool) (c : Called) (w : World) → Valid w → Flow w (call_if b c w)
call_if_flow b c w v = quiet w (call_if b c w) v refl refl refl refl (λ h. h) refl

errno_flow :
    (e : ℕ) (w : World) → Valid w → Flow w (record w { sock = record w.sock { last_errno = e } })
unfolding is_open can_send is_closed
errno_flow e w v = quiet w _ v refl refl refl refl (λ h. h) refl

pub emptied_flow :
    (t : Thread) (more : Bool) (w : World) → Valid w → Yields (λ r. Flow w r.0) (emptied t more w)
unfolding emptied
emptied_flow t more w v =
    Flow-bind (λ a. a) (λ r. r.0) w (remove_and_update_event t ev_write w) _
      (remove_and_update_event_flow t ev_write w v)
      (λ w₁ v₁.
        Flow-bind (λ a. a) (λ r. r.0) w₁ _ _
          (Yields-if (Flow w₁) (w₁.sock.sockcb.on_send && not more) _ (done _)
            (λ h.
              after (dis_allow_send t (call sent w₁)) (call_flow sent w₁ v₁)
                (dis_allow_send_flow t (call sent w₁)))
            (λ h. call_if_flow w₁.sock.sockcb.on_send sent w₁ v₁))
          (λ w₂ v₂.
            if-both {A = World × Bool} (λ r. Flow w₂ r.0) w₂.sock.allow_more_send
              (renew_later w₂, true) (shut_down_write t w₂, false) (λ h. renew_flow w₂ v₂)
              (λ h. shut_down_write_flow t w₂ v₂)))

-- An error closes the socket, with the callback first.
pub failed_close_flow :
    (t : Thread) (b : Bool) (e : ℕ) (w : World)
    → Valid w
    → Yields
        (Flow w)
        (close t true (call_if b failed (record w { sock = record w.sock { last_errno = e } })))
failed_close_flow t b e w v =
    let f = errno_flow e w v in
    after (close t true (call_if b failed _)) (Flow-trans f (call_if_flow b failed _ f.valid))
      (close_flow t true _)

fail_write_flow :
    (t : Thread) (e : ℕ) (w : World) → Valid w → Yields (λ r. Flow w r.0) (fail_write t e w)
unfolding fail_write
fail_write_flow t e w v =
    Flow-bind (λ a. a) (λ r. r.0) w _ _ (failed_close_flow t w.sock.sockcb.on_error e w v)
      (λ w₁ v₁. Flow-refl v₁)

wrote_flow :
    (t : Thread) (n : ℕ) (more : Bool) (w : World)
    → Valid w
    → Yields (λ r. Flow w r.0) (wrote t n more w)
unfolding wrote
wrote_flow t n more w v =
    Flow-bind (λ a. a) (λ r. r.0) w (take_out n w) _ (take_out_flow n w v)
      (λ w₁ v₁.
        Yields-if (λ r. Flow w₁ r.0) (is_empty w₁.sock.outbuf) (emptied t more w₁) (done _)
          (λ h. emptied_flow t more w₁ v₁) (λ h. renew_flow w₁ v₁))

pub do_send_flow :
    (t : Thread) (rs : List WriteResult) (w : World)
    → Valid w
    → Yields (λ r. Flow w r.0) (do_send t rs w)
unfolding do_send
do_send_flow t [] w v = Flow-refl v
do_send_flow t (again ∷ rs) w v = Flow-refl v
do_send_flow t (interrupted ∷ rs) w v = do_send_flow t rs w v
do_send_flow t (fails e ∷ rs) w v = fail_write_flow t e w v
do_send_flow t (takes n more ∷ rs) w v =
    Yields-if (λ r. Flow w r.0) (length (written n w) == 0) (done (w, true)) _ (λ h. Flow-refl v)
      (λ h.
        Flow-bind (λ r. r.0) (λ r. r.0) w (wrote t n more w) _ (wrote_flow t n more w v)
          (λ r v₁.
            Yields-if (λ s. Flow r.0 s.0) r.1 (do_send t rs r.0) (done (r.0, false))
              (λ g. do_send_flow t rs r.0 v₁) (λ g. Flow-refl v₁)))

-- What SendDataInLoop has pushed before it writes.
pub record Pushed (pdata : List ℕ) (w w₁ : World) : Type 0 where
  pub valid : Valid w₁
  pub appended : outgoing w₁ ≡ outgoing w ++ pdata
  pub as_open : is_open w₁.sock ≡ is_open w.sock
  pub as_queued : w₁.write_tasks ≡ w.write_tasks

loop_assert :
    (t : Thread) (w : World)
    → Valid w
    → (if w.sock.evloop then assert_that (in_write_loop t) w else done w) ≡ done w
unfolding assert_that
loop_assert t w v = elim (Bool-cases w.sock.evloop) [
  | inl e ↦ rw (e, v.release) refl
  | inr e ↦ rw e refl
]

-- On an open socket the bytes go behind those that are there, and flow on.
pub send_in_loop_open :
    (t : Thread) (pdata : List ℕ) (rs : List WriteResult) (w : World)
    → Valid w
    → is_closed w.sock ≡ false
    → can_send w.sock ≡ true
    → (w₁ : World) × Pushed pdata w w₁ × Yields (Flow w₁) (send_data_in_loop t pdata rs w)
unfolding send_data_in_loop is_open can_send is_closed
send_in_loop_open t pdata rs w v is_open sends =
    let (b, e, bv, eq) = push_back_lem w.sock.outbuf pdata v.out_valid in
    let w₁ = record w { sock = record w.sock { outbuf = b } } in
    let v₁ : Valid w₁ = record { in_valid = v.in_valid; out_valid = bv; release = v.release } in
    (
      w₁,
      record {
        valid = v₁;
        appended =
            ap (λ xs. w.wire ++ xs) eq ∙ sym (append_assoc w.wire (content w.sock.outbuf) pdata);
        as_open = refl;
        as_queued = refl;
      },
      rw (loop_assert t w v, is_open, sends, e)
          (Flow-bind (λ r. r.0) (λ a. a) w₁ (do_send t rs w₁) _ (do_send_flow t rs w₁ v₁)
            (λ r v₂.
              Yields-if (Flow r.0) (r.1 && not (is_empty r.0.sock.outbuf))
                (add_and_update_event t ev_write r.0) (done r.0)
                (λ h. add_and_update_event_flow t ev_write r.0 v₂) (λ h. Flow-refl v₂))),
    )

-- On one that is not, they are lost, with EPIPE.
pub send_in_loop_lost :
    (t : Thread) (pdata : List ℕ) (rs : List WriteResult) (w : World)
    → Valid w
    → (is_closed w.sock || not (can_send w.sock)) ≡ true
    → Yields (Flow w) (send_data_in_loop t pdata rs w)
unfolding send_data_in_loop
send_in_loop_lost t pdata rs w v lost = rw (loop_assert t w v, lost) (errno_flow epipe w v)
