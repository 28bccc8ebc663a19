-- ===== src/Requester/Ends.antt =====
-- How a task ends, and the branches of ProcessReqToReceiver that end it.
use message_bus_all_in_one_f.Common.{
  ℕ, Bool, true, false, ◌≡◌, refl, ap, ◌∙◌, inl, inr, Option-cases, none, some, List, [], ◌∷◌, ◌++◌,
  ==_refl,
}
use message_bus_all_in_one_f.Memory.{Outcome, done}
use message_bus_all_in_one_f.Memory.Yields.{Yields, Yields-bind, if-both}
use message_bus_all_in_one_f.Table.{nat_key, bytes_key, lookup, insert, lookup-erase}
use message_bus_all_in_one_f.Future.{safe_remove_future}
use message_bus_all_in_one_f.ClientPool.{ClientPool, PoolSock}
use message_bus_all_in_one_f.ClientPool.Turns.{IsCounted}
use message_bus_all_in_one_f.Requester.State.{
  ReqTask, Requester, waiting_for, safe_queue_waiting_task, safe_remove_cached_host_info,
  ask_server,
}
use message_bus_all_in_one_f.Requester.Write.{write_data, write_task_data}
use message_bus_all_in_one_f.Requester.Process.{
  Network, pool_of, with_pool, forget, unreachable, write_on, without_host, unanswered,
}
use message_bus_all_in_one_f.Requester.Received.{IsTask, write_data-packet}
use message_bus_all_in_one_f.Requester.Near.{IsReady, Near, Wrote, write_task_data-Wrote}

-- The server, if there is one, was asked for a name, last.
pub data Asked (r : Requester) (name : List ℕ) (r' : Requester) : Type 0 where
  asked_for :
      (me : List ℕ) (before : List (List ℕ))
      → r.server_connmgr ≡ some me
      → r'.asked ≡ before ++ (name ∷ [])
      → Asked r name r'
  nobody : r.server_connmgr ≡ none → Asked r name r'

-- The end of a task: its data was written last, on some descriptor; or it is the last of the tasks
-- that wait for the host of its name, and the server, if there is one, was asked for it; or its
-- future is gone, and the answer is false.
pub data Fate (r : Requester) (task : ReqTask) : Requester × Bool × List ℕ → Type 0 where
  sent :
      {r' : Requester} {rsp : List ℕ} (before : List (ℕ × List ℕ)) (fd : ℕ) (bytes : List ℕ)
      → write_data task ≡ done bytes
      → r'.wires ≡ before ++ ((fd, bytes) ∷ [])
      → Fate r task (r', true, rsp)
  waits :
      {r' : Requester} {rsp : List ℕ}
      → task.retry ≡ true
      → r'.wait2send
        ≡ insert task.clientname
            (waiting_for task.clientname r.wait2send ++ (task ∷ []))
            r.wait2send
      → Asked r task.clientname r'
      → Fate r task (r', true, rsp)
  failed :
      {r' : Requester} {rsp : List ℕ}
      → lookup task.future_id r'.future_mgr.container ≡ none
      → Fate r task (r', false, rsp)

pub forget-lookup :
    (r : Requester) (task : ReqTask)
    → lookup task.future_id (forget r task).future_mgr.container ≡ none
unfolding safe_remove_future
forget-lookup r task =
    rw (lookup-erase task.future_id task.future_id r.future_mgr.container, ==_refl task.future_id)
      refl

pub pool_of-IsCounted : (r : Requester) (sync : Bool) → IsReady r → IsCounted (pool_of r sync)
unfolding pool_of
pool_of-IsCounted r true v = v.sendmsg_counted
pool_of-IsCounted r false v = v.postmsg_counted

pub with_pool-Near :
    (r : Requester) (sync : Bool) (p : ClientPool)
    → IsReady r
    → IsCounted p
    → Near r (with_pool r sync p)
unfolding with_pool
with_pool-Near r true p v c = record {
  ready = record { sendmsg_counted = c; postmsg_counted = v.postmsg_counted };
  same_waiting = refl;
  same_server = refl;
}
with_pool-Near r false p v c = record {
  ready = record { sendmsg_counted = v.sendmsg_counted; postmsg_counted = c };
  same_waiting = refl;
  same_server = refl;
}

-- The answers of one branch.
Fates : Requester → ReqTask → Outcome (Requester × Bool × List ℕ) → Type 0
Fates r task m = Yields (Fate r task) m

written-Fate :
    (r : Requester) (task : ReqTask) (bytes : List ℕ) (q : Requester × Bool × List ℕ)
    → write_data task ≡ done bytes
    → Wrote r bytes q
    → q.1 ≡ true
    → (r₀ : Requester) → Fate r₀ task (q.0, true, q.2)
written-Fate r task bytes q e w ok r₀ =
    let (before, fd, on) = w.on_wire ok in sent before fd bytes e on

pub write_on-Fate :
    (net : Network) (r₀ r : Requester) (s : PoolSock) (task : ReqTask)
    → IsReady r
    → IsTask task
    → Yields (Fate r₀ task) (write_on net r s task)
unfolding write_on
write_on-Fate net r₀ r s task v good =
    Yields-bind (Wrote r _) (Fate r₀ task) (write_task_data r s task net.sends net.waited) _
      (write_task_data-Wrote r s task net.sends net.waited _ v (write_data-packet task good))
      (λ q w.
        if-both {A = Requester × Bool × List ℕ} (Fate r₀ task) q.1 (q.0, true, q.2)
          (forget q.0 task, false, q.2)
          (λ ok. written-Fate r task _ q (write_data-packet task good) w ok r₀)
          (λ no. failed (forget-lookup q.0 task)))

asked_waiting : (r : Requester) (name : List ℕ) → (ask_server r name).wait2send ≡ r.wait2send
unfolding ask_server
asked_waiting r name = elim (Option-cases r.server_connmgr) [
  | inl e ↦ rw (e, ask_server) refl
  | inr (me, e) ↦ rw (e, ask_server) refl
]

asked_last :
    (r : Requester) (name me : List ℕ)
    → r.server_connmgr ≡ some me
    → (ask_server r name).asked ≡ r.asked ++ (name ∷ [])
unfolding ask_server
asked_last r name me e = rw (e, ask_server) refl

-- A task that waits: it is behind the others of its name, and the server is asked.
waiting-Fate :
    (r₀ r r₁ : Requester) (task : ReqTask) (rsp : List ℕ)
    → Near r₀ r
    → task.retry ≡ true
    → r₁.wait2send ≡ (safe_queue_waiting_task r task).wait2send
    → r₁.server_connmgr ≡ r.server_connmgr
    → Fate r₀ task (ask_server r₁ task.clientname, true, rsp)
unfolding safe_queue_waiting_task
waiting-Fate r₀ r r₁ task rsp n again w same =
    waits again
      (asked_waiting r₁ task.clientname
        ∙ (w
            ∙ ap (λ m. insert task.clientname (waiting_for task.clientname m ++ (task ∷ [])) m)
                n.same_waiting))
      (elim (Option-cases r₀.server_connmgr) [
        | inl e ↦ nobody e
        | inr (me, e) ↦
            asked_for me r₁.asked e (asked_last r₁ task.clientname me (same ∙ (n.same_server ∙ e)))
      ])

pub unreachable-Fate :
    (r₀ r : Requester) (task : ReqTask) → Near r₀ r → Fate r₀ task (unanswered (unreachable r task))
unfolding unreachable unanswered safe_remove_cached_host_info safe_queue_waiting_task
unreachable-Fate r₀ r task n =
    if-both {A = Requester × Bool} (λ q. Fate r₀ task (unanswered q)) task.retry _ _
      (λ again.
        waiting-Fate r₀ r
          (safe_remove_cached_host_info (safe_queue_waiting_task r task) task.clientname) task [] n
          again refl refl)
      (λ once.
        failed
          (forget-lookup (record r { unconnected = r.unconnected ++ (task.clientname ∷ []) }) task))

pub without_host-Fate :
    (r₀ r : Requester) (task : ReqTask)
    → Near r₀ r
    → Fate r₀ task (unanswered (without_host r task))
unfolding without_host unanswered safe_queue_waiting_task
without_host-Fate r₀ r task n =
    if-both {A = Requester × Bool} (λ q. Fate r₀ task (unanswered q)) task.retry _ _
      (λ again. waiting-Fate r₀ r (safe_queue_waiting_task r task) task [] n again refl refl)
      (λ once. failed (forget-lookup r task))
