-- ===== src/Socket/Flow/Reading.antt =====
-- The flow of HandleEvent: reading moves nothing that is on its way out.
use mathlib.Core.List.{append-nil}
use message_bus_all_in_one_f.Memory.Yields.{Yields, Yields-if, Yields-eq, Yields-map}
use message_bus_all_in_one_f.Common.{
  ℕ, ◌+◌, ◌≤◌, Bool, true, false, not, ◌&&◌, ◌||◌, ◌≡◌, refl, sym, ◌∙◌, List, [], ◌∷◌, ◌++◌, length,
  take, length-take, arith, ◌==◌, if◌then◌else◌,
}
use message_bus_all_in_one_f.Memory.{Outcome, done, wild, ◌>>=◌}
use message_bus_all_in_one_f.FastBuffer.{FastBuffer}
use message_bus_all_in_one_f.FastBuffer.Room.{IsValid, content}
use message_bus_all_in_one_f.Socket.State.{
  can_send, is_closed, closed, Thread, in_loop, in_write_loop, World, call_if,
}
use message_bus_all_in_one_f.Socket.Update.{assert_that, close}
use message_bus_all_in_one_f.Socket.Send.{WriteResult, do_send}
use message_bus_all_in_one_f.Socket.Read.{
  ReadResult, gets, ends, no_more, interrupted, fails, got, end_read, fail_read, make_room,
  read_loop, handle_read, handle_write, handle_exception, handle_event,
}
use message_bus_all_in_one_f.Socket.Flow.{
  Valid, Flow, is_open, queued, still, Flow-refl, Flow-trans, Flow-bind,
}
use message_bus_all_in_one_f.Socket.Flow.Events.{assert_that_flow, close_flow, after}
use message_bus_all_in_one_f.Socket.Flow.Sending.{do_send_flow, failed_close_flow, call_if_flow}
use message_bus_all_in_one_f.Socket.Incoming.{shown, got_lem, make_room_lem}

-- A call that changes the input buffer only.
inbuf_flow :
    (w w' : World)
    → Valid w
    → IsValid w'.sock.inbuf
    → w'.sock.outbuf ≡ w.sock.outbuf
    → w'.debug ≡ w.debug
    → w'.wire ≡ w.wire
    → is_open w'.sock ≡ is_open w.sock
    → queued w'.write_tasks ≡ queued w.write_tasks
    → Flow w w'
inbuf_flow w w' v i o d x open_before tasks =
    still {w = w} {w' = w'}
      (record { in_valid = i; out_valid = rw o v.out_valid; release = d ∙ v.release })
      (rw (x, o) refl) (λ h. sym open_before ∙ h) tasks [] (x ∙ sym (append-nil w.wire))

roomy : World → FastBuffer → World
roomy w b = record w { sock = record w.sock { inbuf = b } }

roomy_flow : (w : World) (b : FastBuffer) → Valid w → IsValid b → Flow w (roomy w b)
unfolding is_open can_send is_closed roomy
roomy_flow w b v bv = inbuf_flow w (roomy w b) v bv refl refl refl refl refl

shown_flow :
    (xs : List ℕ) (readed : ℕ) (b : FastBuffer) (w : World)
    → Valid w
    → IsValid b
    → Flow w (shown xs readed b w)
unfolding is_open can_send is_closed
shown_flow xs readed b w v bv = inbuf_flow w (shown xs readed b w) v bv refl refl refl refl refl

end_read_flow : (t : Thread) (w : World) → Valid w → Yields (Flow w) (end_read t w)
unfolding end_read
end_read_flow t w v =
    after (close t true (call_if w.sock.sockcb.on_close closed w))
      (call_if_flow w.sock.sockcb.on_close closed w v) (close_flow t true _)

fail_read_flow : (t : Thread) (e : ℕ) (w : World) → Valid w → Yields (Flow w) (fail_read t e w)
unfolding fail_read
fail_read_flow t e w v = failed_close_flow t w.sock.sockcb.on_error e w v

-- A round of the reading loop: the room is made first.
first_room :
    (w : World) (f : World → Outcome (World × Bool))
    → Valid w
    → ((b : FastBuffer)
        → IsValid b
        → b.writestart + w.sock.tmp_blocksize ≤ length b.innerdata
        → Valid (roomy w b)
        → Yields (λ r. Flow (roomy w b) r.0) (f (roomy w b)))
    → Yields (λ r. Flow w r.0) (make_room w >>= f)
unfolding roomy
first_room w f v next =
    let (b, e, k, room) = make_room_lem w v in
    let g = roomy_flow w b v k.valid in
    rw e (
      Yields-map (λ r. Flow (roomy w b) r.0) (λ r. Flow w r.0) (f (roomy w b)) (λ r. Flow-trans g)
        (next b k.valid room g.valid))

ended_flow :
    (t : Thread) (w : World)
    → Valid w
    → Yields (λ (r : World × Bool). Flow w r.0) (end_read t w >>= λ w₂. done (w₂, false))
ended_flow t w v =
    Flow-bind (λ a. a) (λ r. r.0) w (end_read t w) _ (end_read_flow t w v) (λ w₁ v₁. Flow-refl v₁)

got_flow :
    (chunk : List ℕ) (n : ℕ) (w : World)
    → Valid w
    → w.sock.inbuf.writestart + length chunk ≤ length w.sock.inbuf.innerdata
    → Yields (Flow w) (got chunk n w)
got_flow chunk n w v room =
    let (b, e, bv, c) = got_lem chunk n w v room in
    Yields-eq (Flow w) e (shown_flow (content w.sock.inbuf ++ chunk) (length chunk) b w v bv)

read_loop_flow :
    (t : Thread) (rs : List ReadResult) (w : World)
    → Valid w
    → Yields (λ r. Flow w r.0) (read_loop t rs w)
unfolding read_loop roomy
read_loop_flow t [] w v = first_room w _ v (λ b bv room v₁. Flow-refl v₁)
read_loop_flow t (no_more ∷ rs) w v = first_room w _ v (λ b bv room v₁. Flow-refl v₁)
read_loop_flow t (interrupted ∷ rs) w v =
    first_room w _ v (λ b bv room v₁. read_loop_flow t rs (roomy w b) v₁)
read_loop_flow t (fails e ∷ rs) w v = first_room w _ v (λ b bv room v₁.
    Flow-bind (λ a. a) (λ r. r.0) (roomy w b) (fail_read t e (roomy w b)) _
      (fail_read_flow t e (roomy w b) v₁) (λ w₂ v₂. Flow-refl v₂))
read_loop_flow t (ends ∷ rs) w v = first_room w _ v (λ b bv room v₁. ended_flow t (roomy w b) v₁)
read_loop_flow t (gets bytes n ∷ rs) w v =
    let chunk = take w.sock.tmp_blocksize bytes in
    first_room w _ v (λ b bv room v₁.
      Yields-if (λ r. Flow (roomy w b) r.0) (length chunk == 0) _ _
        (λ h. ended_flow t (roomy w b) v₁)
        (λ h.
          Flow-bind (λ a. a) (λ r. r.0) (roomy w b) (got chunk n (roomy w b)) (read_loop t rs)
            (got_flow chunk n (roomy w b) v₁
              (omega (arith, length-take w.sock.tmp_blocksize bytes)))
            (λ w₂ v₂. read_loop_flow t rs w₂ v₂)))

handle_read_flow :
    (t : Thread) (rs : List ReadResult) (w : World)
    → Valid w
    → Yields (λ r. Flow w r.0) (handle_read t rs w)
unfolding handle_read
handle_read_flow t rs w v =
    Yields-if (λ r. Flow w r.0) w.sock.sockev.read _ (done (w, true))
      (λ h.
        Yields-if (λ r. Flow w r.0) (w.sock.evloop && not (in_loop t)) (done (w, false))
          (read_loop t rs w) (λ g. Flow-refl v) (λ g. read_loop_flow t rs w v))
      (λ h. Flow-refl v)

handle_write_flow :
    (t : Thread) (rs : List WriteResult) (w : World)
    → Valid w
    → Yields (λ r. Flow w r.0) (handle_write t rs w)
unfolding handle_write
handle_write_flow t rs w v =
    Yields-if (λ r. Flow w r.0) (w.sock.sockev.write && w.sock.writeable) _ (done (w, true))
      (λ h.
        Yields-if (λ r. Flow w r.0) (w.sock.evloop && not (in_write_loop t)) (done (w, false))
          (do_send t rs w) (λ g. Flow-refl v) (λ g. do_send_flow t rs w v))
      (λ h. Flow-refl v)

handle_exception_flow :
    (t : Thread) (e : ℕ) (w : World) → Valid w → Yields (Flow w) (handle_exception t e w)
unfolding handle_exception
handle_exception_flow t e w v =
    Yields-if (Flow w) (w.sock.sockev.exception && not (w.sock.evloop && not (in_loop t)))
      (fail_read t e w) (done w) (λ h. fail_read_flow t e w v) (λ h. Flow-refl v)

started :
    (t : Thread) (w : World)
    → Valid w
    → Yields (Flow w) (
        if w.sock.evloop
        then assert_that (in_loop t || in_write_loop t) w
        else if w.debug
        then wild
        else done w)
started t w v =
    Yields-if (Flow w) w.sock.evloop (assert_that (in_loop t || in_write_loop t) w) _
      (λ h. assert_that_flow _ w v)
      (λ h.
        Yields-if (Flow w) w.debug wild (done w) (λ g. absurd (off g v.release)) (λ g. Flow-refl v))
  where
    off : w.debug ≡ true → w.debug ≡ false → ⊥
    off e d = cc

-- HandleEvent ends, and moves bytes out in order.
pub handle_event_flow :
    (t : Thread) (reads : List ReadResult) (writes : List WriteResult) (e : ℕ) (w : World)
    → Valid w
    → Yields (Flow w) (handle_event t reads writes e w)
unfolding handle_event
handle_event_flow t reads writes e w v =
    Yields-if (Flow w) (is_closed w.sock) (done w) _ (λ h. Flow-refl v)
      (λ h.
        Flow-bind (λ a. a) (λ a. a) w _ _ (started t w v)
          (λ w₀ v₀.
            Flow-bind (λ r. r.0) (λ a. a) w₀ (handle_read t reads w₀) _
              (handle_read_flow t reads w₀ v₀)
              (λ r v₁.
                Yields-if (Flow r.0) r.1 _ (done r.0)
                  (λ g.
                    Flow-bind (λ s. s.0) (λ a. a) r.0 (handle_write t writes r.0) _
                      (handle_write_flow t writes r.0 v₁)
                      (λ s v₂.
                        Yields-if (Flow s.0) s.1 (handle_exception t e s.0) (done s.0)
                          (λ k. handle_exception_flow t e s.0 v₂) (λ k. Flow-refl v₂)))
                  (λ g. Flow-refl v₁))))
