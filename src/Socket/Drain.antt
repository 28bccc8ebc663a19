-- ===== src/Socket/Drain.antt =====
-- A system that keeps taking bytes gets everything that is in the output buffer.
use mathlib.Core.List.{append-nil}
use message_bus_all_in_one_f.Memory.Yields.{
  false-true, Yields, Yields-if, Yields-bind, Yields-map, Yields-elim,
}
use message_bus_all_in_one_f.Common.{
  ℕ, zero, suc, ◌+◌, ◌≤◌, Bool, true, false, ◌≡◌, refl, sym, ap, ◌∙◌, Bool-cases, inl, inr, List,
  [], ◌∷◌, ◌++◌, length, drop, length-take, length-drop, length-append, All, arith, ◌==◌,
  if◌then◌else◌,
}
use message_bus_all_in_one_f.Memory.{done}
use message_bus_all_in_one_f.FastBuffer.{FastBuffer, is_empty}
use message_bus_all_in_one_f.FastBuffer.Room.{IsValid, content}
use message_bus_all_in_one_f.FastBuffer.Queue.{is_empty_iff}
use message_bus_all_in_one_f.Socket.State.{Thread, World}
use message_bus_all_in_one_f.Socket.Send.{
  WriteResult, takes, again, interrupted, fails, written, renew_later, emptied, wrote, do_send,
}
use message_bus_all_in_one_f.Socket.Flow.{Valid, Flow, outgoing}
use message_bus_all_in_one_f.Socket.Flow.Sending.{
  take_out_lem, took, outgoing-took, renew_flow, emptied_flow,
}

length-zero : (xs : List ℕ) → length xs ≡ 0 → xs ≡ []
length-zero [] h = refl
length-zero (x ∷ xs) h = absurd (omega arith)

-- A flow from an empty buffer leaves it empty and writes nothing.
from_empty :
    (w w' : World)
    → content w.sock.outbuf ≡ []
    → Flow w w'
    → (w'.wire ≡ w.wire) × (content w'.sock.outbuf ≡ [])
from_empty w w' h f = (
  f.on_wire
      ∙ (ap (λ xs. w.wire ++ xs) (length-zero f.more (omega (arith, sizes))) ∙ append-nil w.wire),
  length-zero (content w'.sock.outbuf) (omega (arith, sizes)),
)
  where
    c' : List ℕ
    c' = content w'.sock.outbuf

    balance : w.wire ≡ ((w.wire ++ f.more) ++ c') ++ f.dropped
    balance =
        sym (append-nil w.wire)
        ∙ (ap (λ xs. w.wire ++ xs) (sym h)
            ∙ (f.order ∙ ap (λ xs. (xs ++ c') ++ f.dropped) f.on_wire))

    sizes : length w.wire ≡ length w.wire + length f.more + length c' + length f.dropped
    sizes =
        ap length balance
        ∙ omega (
          arith,
          length-append ((w.wire ++ f.more) ++ c') f.dropped,
          length-append (w.wire ++ f.more) c',
          length-append w.wire f.more,
        )

-- A round of DoSend that wrote: no byte is lost, there are fewer left, and it is the last round only
-- where none are left.
record Round (w : World) (r : World × Bool) : Type 0 where
  valid : Valid r.0
  kept : outgoing r.0 ≡ outgoing w
  fewer : suc (length (content r.0.sock.outbuf)) ≤ length (content w.sock.outbuf)
  last : r.1 ≡ false → content r.0.sock.outbuf ≡ []

wrote-Round :
    (t : Thread) (n : ℕ) (more : Bool) (w : World)
    → Valid w
    → (length (written (suc n) w) == 0) ≡ false
    → Yields (Round w) (wrote t (suc n) more w)
unfolding wrote
wrote-Round t n more w v some =
    let (b, e, bv, eq) = take_out_lem (suc n) w v in rw e (round b bv eq)
  where
    c : List ℕ
    c = content w.sock.outbuf

    fewer_left :
        (b : FastBuffer)
        → content b ≡ drop (length (written (suc n) w)) c
        → suc (length (content b)) ≤ length c
    fewer_left b eq =
        ground
          (arith, ap length eq, length-drop (length (written (suc n) w)) c, length-take (suc n) c)

    after_empty :
        (b : FastBuffer)
        → content b ≡ drop (length (written (suc n) w)) c
        → content b ≡ []
        → (r : World × Bool) → Flow (took (suc n) b w) r.0
        → Round w r
    after_empty b eq none (w', goes) f =
        let (same_wire, same_out) = from_empty (took (suc n) b w) w' none f in
        record {
          valid = f.valid;
          kept =
              ap (λ xs. w'.wire ++ xs) (same_out ∙ sym none)
              ∙ (ap (λ xs. xs ++ content b) same_wire ∙ outgoing-took (suc n) b w eq);
          fewer = omega (arith, fewer_left b eq, ap length none, ap length same_out);
          last = λ h. same_out;
        }

    round :
        (b : FastBuffer)
        → IsValid b
        → content b ≡ drop (length (written (suc n) w)) c
        → Yields (Round w) (
            if is_empty b
            then emptied t more (took (suc n) b w)
            else done (renew_later (took (suc n) b w), true))
    round b bv eq =
        let w₁ = took (suc n) b w in
        let v₁ : Valid w₁ = record { in_valid = v.in_valid; out_valid = bv; release = v.release } in
        Yields-if (Round w) (is_empty b) (emptied t more w₁) _
          (λ h.
            Yields-map (λ r. Flow w₁ r.0) (Round w) (emptied t more w₁)
              (after_empty b eq (((is_empty_iff b bv).0).0 h)) (emptied_flow t more w₁ v₁))
          (λ h. record {
            valid = (renew_flow w₁ v₁).valid;
            kept = outgoing-took (suc n) b w eq;
            fewer = fewer_left b eq;
            last = λ g. cc;
          })

-- The results that make progress, and how many of them take bytes.
unfoldable pub eager : WriteResult → Bool
eager (takes zero more) = false
eager (takes (suc n) more) = true
eager again = false
eager interrupted = true
eager (fails e) = false

unfoldable pub rounds : List WriteResult → ℕ
rounds [] = 0
rounds (takes n more ∷ rs) = suc (rounds rs)
rounds (again ∷ rs) = rounds rs
rounds (interrupted ∷ rs) = rounds rs
rounds (fails e ∷ rs) = rounds rs

Drained : World → World × Bool → Type 0
Drained w r = r.0.wire ≡ outgoing w

empty-Drained : (w : World) → content w.sock.outbuf ≡ [] → Drained w (w, true)
unfolding Drained
empty-Drained w h = sym (ap (λ xs. w.wire ++ xs) h ∙ append-nil w.wire)

written_nothing :
    (n : ℕ) (w : World) → (length (written (suc n) w) == 0) ≡ true → content w.sock.outbuf ≡ []
written_nothing n w h =
    length-zero (content w.sock.outbuf)
      (ground (arith, length-take (suc n) (content w.sock.outbuf)))

Drained-by_rounds :
    (w : World) (r : World × Bool) (q : World × Bool) → Round w r → Drained r.0 q → Drained w q
unfolding Drained
Drained-by_rounds w r q p d = d ∙ p.kept

last-Drained : (w : World) → content w.sock.outbuf ≡ [] → Drained w (w, false)
unfolding Drained
last-Drained w h = sym (ap (λ xs. w.wire ++ xs) h ∙ append-nil w.wire)

drains :
    (t : Thread) (rs : List WriteResult) (w : World)
    → Valid w
    → All (λ r. eager r ≡ true) rs
    → length (content w.sock.outbuf) ≤ rounds rs
    → Yields (Drained w) (do_send t rs w)
unfolding do_send eager rounds
drains t [] w v h few = empty-Drained w (length-zero (content w.sock.outbuf) (omega arith))
drains t (again ∷ rs) w v h few = absurd (false-true (h.0))
drains t (interrupted ∷ rs) w v h few = drains t rs w v h.1 few
drains t (fails e ∷ rs) w v h few = absurd (false-true (h.0))
drains t (takes zero more ∷ rs) w v h few = absurd (false-true (h.0))
drains t (takes (suc n) more ∷ rs) w v h few = elim (Bool-cases (length (written (suc n) w) == 0)) [
  | inl e ↦ rw e (empty-Drained w (written_nothing n w e))
  | inr e ↦ rw e (
      Yields-bind (Round w) (Drained w) (wrote t (suc n) more w) _ (wrote-Round t n more w v e)
        (λ r p.
          Yields-if (Drained w) r.1 (do_send t rs r.0) (done (r.0, false))
            (λ g.
              Yields-map (Drained r.0) (Drained w) (do_send t rs r.0)
                (λ q. Drained-by_rounds w r q p)
                (drains t rs r.0 p.valid h.1 (omega (arith, p.fewer))))
            (λ g. Drained-by_rounds w r (r.0, false) p (last-Drained r.0 (p.last g)))))
]

-- Where every answer of `write` takes at least a byte or is EINTR, and there are as many that take
-- as there are bytes in the buffer, DoSend ends with every byte of the buffer sent, in order, in
-- whichever way the callback answers and whether or not more data is allowed.
pub do_send_drains :
    (t : Thread) (rs : List WriteResult) (w : World)
    → Valid w
    → All (λ r. eager r ≡ true) rs
    → length (content w.sock.outbuf) ≤ rounds rs
    → (r : World × Bool) × (do_send t rs w ≡ done r) × (r.0.wire ≡ w.wire ++ content w.sock.outbuf)
unfolding Drained
do_send_drains t rs w v h few = Yields-elim (Drained w) (do_send t rs w) (drains t rs w v h few)
