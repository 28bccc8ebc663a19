-- ===== src/Requester/Near.antt =====
-- What the writes of Req2ReceiverMgr leave alone.
use message_bus_all_in_one_f.Common.{
  ℕ, Bool, true, false, ◌≡◌, refl, ◌∙◌, Option, none, some, List, [], ◌∷◌, ◌++◌, arith,
}
use message_bus_all_in_one_f.Memory.{done}
use message_bus_all_in_one_f.Memory.Yields.{Yields, Yields-bind, Yields-map, if-both}
use message_bus_all_in_one_f.Table.{nat_key, bytes_key}
use message_bus_all_in_one_f.ClientPool.{PoolSock}
use message_bus_all_in_one_f.ClientPool.Turns.{IsCounted}
use message_bus_all_in_one_f.Content.RoundTrip.{generate-readers}
use message_bus_all_in_one_f.Requester.State.{ReqTask, Requester}
use message_bus_all_in_one_f.Requester.Write.{
  sender_name, await_answer, write_data, write_task_data, identify_task, identify_self,
}
use message_bus_all_in_one_f.Requester.Process.{forget, identify_all}
use message_bus_all_in_one_f.Requester.Received.{IsTask, write_data-packet}

-- Both pools have their counters.
pub record IsReady (r : Requester) : Type 0 where
  pub sendmsg_counted : IsCounted r.sendmsg_pool
  pub postmsg_counted : IsCounted r.postmsg_pool

-- The state while a task is processed.
pub record Near (r r₁ : Requester) : Type 0 where
  pub ready : IsReady r₁
  pub same_waiting : r₁.wait2send ≡ r.wait2send
  pub same_server : r₁.server_connmgr ≡ r.server_connmgr

-- What a write leaves.
pub record Wrote (r : Requester) (bytes : List ℕ) (q : Requester × Bool × List ℕ) : Type 0 where
  pub near : Near r q.0
  pub on_wire :
      q.1 ≡ true
      → (before : List (ℕ × List ℕ)) × (fd : ℕ) × (q.0.wires ≡ before ++ ((fd, bytes) ∷ []))

awaits :
    (sync : Bool) (cur : Option ℕ) (waited : Option (List ℕ)) (r r₁ : Requester) (fd : ℕ)
    (bytes : List ℕ)
    → Near r r₁
    → r₁.wires ≡ r.wires ++ ((fd, bytes) ∷ [])
    → Wrote r bytes (await_answer sync cur waited r₁)
unfolding await_answer
awaits false cur waited r r₁ fd bytes n e = record { near = n; on_wire = λ h. (r.wires, fd, e) }
awaits true none waited r r₁ fd bytes n e = record { near = n; on_wire = λ h. (r.wires, fd, e) }
awaits true (some place) none r r₁ fd bytes n e = record {
  near = n;
  on_wire = λ h. (r.wires, fd, e);
}
awaits true (some place) (some content) r r₁ fd bytes n e = record {
  near = n;
  on_wire = λ h. (r.wires, fd, e);
}

pub Near-refl : (r : Requester) → IsReady r → Near r r
Near-refl r v = record { ready = v; same_waiting = refl; same_server = refl }

pub forget-Near : (r : Requester) (task : ReqTask) → IsReady r → Near r (forget r task)
forget-Near r task v = record {
  ready = record { sendmsg_counted = v.sendmsg_counted; postmsg_counted = v.postmsg_counted };
  same_waiting = refl;
  same_server = refl;
}

wires-Near : (r : Requester) (ws : List (ℕ × List ℕ)) → IsReady r → Near r (record r { wires = ws })
wires-Near r ws v = record {
  ready = record { sendmsg_counted = v.sendmsg_counted; postmsg_counted = v.postmsg_counted };
  same_waiting = refl;
  same_server = refl;
}

pub write_task_data-Wrote :
    (r : Requester) (s : PoolSock) (task : ReqTask) (sends : Bool) (waited : Option (List ℕ))
    (bytes : List ℕ)
    → IsReady r
    → write_data task ≡ done bytes
    → Yields (Wrote r bytes) (write_task_data r s task sends waited)
unfolding write_task_data
write_task_data-Wrote r s task sends waited bytes v e = rw e (
    if-both {A = Requester × Bool × List ℕ} (Wrote r bytes) sends _ _
      (λ h. awaits task.sync _ waited r _ s.fd bytes (wires-Near r _ v) refl)
      (λ h. record { near = forget-Near r task v; on_wire = λ g. cc }))

pub Near-trans : (a b c : Requester) → Near a b → Near b c → Near a c
Near-trans a b c f g = record {
  ready = g.ready;
  same_waiting = g.same_waiting ∙ f.same_waiting;
  same_server = g.same_server ∙ f.same_server;
}

-- The identification always fits in its array.
identify_task-IsTask : (r : Requester) → Yields IsTask (identify_task r)
unfolding identify_task
identify_task-IsTask r =
    let (content, gen, whole, from, id, par, size) =
      generate-readers [] (sender_name r) (record { paramdata = []; paramlen = 0 }) (omega arith)
        (omega arith) in
    rw gen (record { whole = whole; fits = omega (arith, whole, size); id_fits = omega arith })

identify_self-Near :
    (r : Requester) (s : PoolSock) (sends : Bool)
    → IsReady r
    → Yields (λ (q : Requester × Bool × List ℕ). Near r q.0) (identify_self r s sends)
unfolding identify_self
identify_self-Near r s sends v =
    Yields-bind IsTask (λ (q : Requester × Bool × List ℕ). Near r q.0) (identify_task r) _
      (identify_task-IsTask r)
      (λ task good.
        Yields-map (Wrote r _) (λ (q : Requester × Bool × List ℕ). Near r q.0)
          (write_task_data r s task sends none) (λ q w. w.near)
          (write_task_data-Wrote r s task sends none _ v (write_data-packet task good)))

pub identify_all-Near :
    (socks : List (PoolSock × Bool)) (r : Requester)
    → IsReady r
    → Yields (Near r) (identify_all r socks)
unfolding identify_all
identify_all-Near [] r v = Near-refl r v
identify_all-Near ((s, sends) ∷ socks) r v =
    Yields-bind (λ (q : Requester × Bool × List ℕ). Near r q.0) (Near r) (identify_self r s sends) _
      (identify_self-Near r s sends v)
      (λ q n.
        Yields-map (Near q.0) (Near r) (identify_all q.0 socks) (λ r₂. Near-trans r q.0 r₂ n)
          (identify_all-Near socks q.0 n.ready))
