-- ===== src/Socket/Flow.antt =====
-- What the calls of a socket leave of the bytes on their way out: calls that end, that keep the
-- buffers valid, and that move bytes from the buffer to the system in order or drop them from the
-- end.
pub mod Events
pub mod Sending
pub mod Reading
use mathlib.Core.List.{append-nil, append_assoc}
use message_bus_all_in_one_f.Memory.Yields.{Yields, Yields-bind, Yields-map}
use message_bus_all_in_one_f.Common.{
  ℕ, Bool, true, false, ◌≡◌, refl, sym, ap, ◌∙◌, List, [], ◌∷◌, ◌++◌, if◌then◌else◌,
}
use message_bus_all_in_one_f.Memory.{Outcome, done, aborted, wild, ◌>>=◌}
use message_bus_all_in_one_f.FastBuffer.Room.{IsValid, content}
use message_bus_all_in_one_f.Socket.State.{
  TcpSock, can_send, is_closed, World, WriteTask, send, shut_down,
}

-- The bytes that wait to be sent by the write thread.
unfoldable pub queued : List WriteTask → List ℕ
queued [] = []
queued (shut_down ∷ ts) = queued ts
queued (send bytes ∷ ts) = bytes ++ queued ts

-- The bytes that have entered the buffer, as far as they have not been dropped.
abbrev pub outgoing : World → List ℕ
outgoing w = w.wire ++ content w.sock.outbuf

-- Whether SendDataInLoop takes bytes.
unfoldable pub is_open : TcpSock → Bool
is_open s = if is_closed s then false else can_send s

pub record Valid (w : World) : Type 0 where
  pub in_valid : IsValid w.sock.inbuf
  pub out_valid : IsValid w.sock.outbuf
  pub release : w.debug ≡ false

pub record Flow (w w' : World) : Type 0 where
  pub valid : Valid w'
  pub dropped : List ℕ
  pub order : outgoing w ≡ outgoing w' ++ dropped
  pub open_before : is_open w'.sock ≡ true → is_open w.sock ≡ true
  pub nothing_dropped : is_open w'.sock ≡ true → dropped ≡ []
  pub tasks : queued w'.write_tasks ≡ queued w.write_tasks
  pub more : List ℕ
  pub on_wire : w'.wire ≡ w.wire ++ more

-- A call that moves no bytes.
pub still :
    {w w' : World}
    → Valid w'
    → outgoing w' ≡ outgoing w
    → (is_open w'.sock ≡ true → is_open w.sock ≡ true)
    → queued w'.write_tasks ≡ queued w.write_tasks
    → (more : List ℕ) → w'.wire ≡ w.wire ++ more
    → Flow w w'
still {w' = w'} v e open_before tasks more on_wire = record {
  valid = v;
  dropped = [];
  order = sym e ∙ sym (append-nil (outgoing w'));
  open_before = open_before;
  nothing_dropped = λ h. refl;
  tasks = tasks;
  more = more;
  on_wire = on_wire;
}

pub Flow-refl : {w : World} → Valid w → Flow w w
Flow-refl {w} v = still v refl (λ h. h) refl [] (sym (append-nil w.wire))

pub Flow-trans : {a b c : World} → Flow a b → Flow b c → Flow a c
Flow-trans {a} {c = c} f g = record {
  valid = g.valid;
  dropped = g.dropped ++ f.dropped;
  order =
      f.order
      ∙ (ap (λ xs. xs ++ f.dropped) g.order ∙ append_assoc (outgoing c) g.dropped f.dropped);
  open_before = λ h. f.open_before (g.open_before h);
  nothing_dropped = λ h. rw (g.nothing_dropped h) (f.nothing_dropped (g.open_before h));
  tasks = g.tasks ∙ f.tasks;
  more = f.more ++ g.more;
  on_wire = g.on_wire ∙ (ap (λ xs. xs ++ g.more) f.on_wire ∙ append_assoc a.wire f.more g.more);
}

-- A flow that goes on in the call that follows.
pub Flow-bind {ℓ κ} :
    {A : Type ℓ} {B : Type κ} (p : A → World) (q : B → World) (w : World) (m : Outcome A)
    (f : A → Outcome B)
    → Yields (λ a. Flow w (p a)) m
    → ((a : A) → Valid (p a) → Yields (λ b. Flow (p a) (q b)) (f a))
    → Yields (λ b. Flow w (q b)) (m >>= f)
Flow-bind p q w m f first next =
    Yields-bind (λ a. Flow w (p a)) (λ b. Flow w (q b)) m f first
      (λ a fl.
        Yields-map (λ b. Flow (p a) (q b)) (λ b. Flow w (q b)) (f a) (λ b. Flow-trans fl)
          (next a fl.valid))

pub queued-append : (ts us : List WriteTask) → queued (ts ++ us) ≡ queued ts ++ queued us
unfolding queued
queued-append [] us = refl
queued-append (shut_down ∷ ts) us = queued-append ts us
queued-append (send bytes ∷ ts) us =
    rw (queued-append ts us) (sym (append_assoc bytes (queued ts) (queued us)))

-- A call that changes neither the buffers nor what was written.
pub quiet :
    (w w' : World)
    → Valid w
    → w'.sock.inbuf ≡ w.sock.inbuf
    → w'.sock.outbuf ≡ w.sock.outbuf
    → w'.debug ≡ w.debug
    → w'.wire ≡ w.wire
    → (is_open w'.sock ≡ true → is_open w.sock ≡ true)
    → queued w'.write_tasks ≡ queued w.write_tasks
    → Flow w w'
quiet w w' v i o d x open_before tasks =
    still {w = w} {w' = w'}
      (record { in_valid = rw i v.in_valid; out_valid = rw o v.out_valid; release = d ∙ v.release })
      (rw (x, o) refl) open_before tasks [] (x ∙ sym (append-nil w.wire))
