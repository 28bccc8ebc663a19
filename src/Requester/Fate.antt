-- ===== src/Requester/Fate.antt =====
-- ProcessReqToReceiver as a whole.
use message_bus_all_in_one_f.Common.{
  ℕ, Bool, true, not, ◌≡◌, ◌≢◌, inl, inr, ◌⊎◌, Option, none, some, List, [], bytes_eq, bytes_eq→eq,
  if◌then◌else◌,
}
use message_bus_all_in_one_f.Memory.{Outcome, done, aborted, ◌>>=◌}
use message_bus_all_in_one_f.Memory.Yields.{Yields, Yields-bind, Yields-if, Yields-map, Yields-elim}
use message_bus_all_in_one_f.Table.{nat_key, bytes_key}
use message_bus_all_in_one_f.ClientPool.{ClientPool, Dest, PoolSock, get_tcp_sock, create_tcp_sock}
use message_bus_all_in_one_f.ClientPool.Turns.{IsCounted}
use message_bus_all_in_one_f.ClientPool.Create.{get_tcp_sock-Yields, create_tcp_sock-Yields}
use message_bus_all_in_one_f.Requester.State.{ReqTask, Requester, safe_get_cached_host_info}
use message_bus_all_in_one_f.Requester.Process.{
  Network, pool_of, with_pool, identify_all, unreachable, connect_and_write, send_to, unanswered,
  write_on_new, write_on_pooled, send_cached, process_req_to_receiver, client_pool_size,
}
use message_bus_all_in_one_f.Requester.Received.{IsTask}
use message_bus_all_in_one_f.Requester.Near.{
  IsReady, Near, Near-refl, Near-trans, identify_all-Near,
}
use message_bus_all_in_one_f.Requester.Ends.{
  failed, Fate, forget-lookup, pool_of-IsCounted, with_pool-Near, write_on-Fate, unreachable-Fate,
  without_host-Fate,
}

write_on_new-Fate :
    (net : Network) (r₀ r : Requester) (found : Option PoolSock) (task : ReqTask)
    → IsReady r
    → IsTask task
    → Yields (Fate r₀ task) (write_on_new net r found task)
unfolding write_on_new
write_on_new-Fate net r₀ r none task v good = failed (forget-lookup r task)
write_on_new-Fate net r₀ r (some s) task v good = write_on-Fate net r₀ r s task v good

-- The counted pool back in its place.
back :
    (r₀ r : Requester) (sync : Bool) (p : ClientPool)
    → Near r₀ r
    → IsCounted p
    → Near r₀ (with_pool r sync p)
back r₀ r sync p n c = Near-trans r₀ r (with_pool r sync p) n (with_pool-Near r sync p n.ready c)

connect_and_write-Fate :
    (net : Network) (r₀ r : Requester) (dest : Dest) (task : ReqTask)
    → Near r₀ r
    → IsTask task
    → Yields (Fate r₀ task) (connect_and_write net r dest task)
unfolding connect_and_write
connect_and_write-Fate net r₀ r dest task n good =
    Yields-bind (λ (q : ClientPool × Bool × List (PoolSock × Bool)). IsCounted q.0) (Fate r₀ task)
      (create_tcp_sock (pool_of r task.sync) dest client_pool_size net.attempts) _
      (create_tcp_sock-Yields (pool_of r task.sync) dest client_pool_size net.attempts
        (pool_of-IsCounted r task.sync n.ready))
      (λ q c. identified _ q.1 (
        Yields-map (Near (with_pool r task.sync q.0)) (Near r₀)
          (identify_all (with_pool r task.sync q.0) q.2)
          (λ r₁. Near-trans r₀ (with_pool r task.sync q.0) r₁ (back r₀ r task.sync q.0 n c))
          (identify_all-Near q.2 (with_pool r task.sync q.0)
            (with_pool-Near r task.sync q.0 n.ready c).ready)))
  where
    again :
        (r₁ : Requester)
        → Near r₀ r₁
        → Yields (Fate r₀ task) (
            get_tcp_sock (pool_of r₁ task.sync) dest >>= λ q.
            write_on_new net (with_pool r₁ task.sync q.0) q.1 task)
    again r₁ n₁ =
        Yields-bind (λ (q : ClientPool × Option PoolSock). IsCounted q.0) (Fate r₀ task)
          (get_tcp_sock (pool_of r₁ task.sync) dest) _
          (get_tcp_sock-Yields (pool_of r₁ task.sync) dest
            (pool_of-IsCounted r₁ task.sync n₁.ready))
          (λ q c.
            write_on_new-Fate net r₀ (with_pool r₁ task.sync q.0) q.1 task
              (with_pool-Near r₁ task.sync q.0 n₁.ready c).ready good)

    identified :
        (m : Outcome Requester) (ok : Bool)
        → Yields (Near r₀) m
        → Yields (Fate r₀ task) (
            m >>= λ r₁.
            if not ok
            then done (unanswered (unreachable r₁ task))
            else (get_tcp_sock (pool_of r₁ task.sync) dest >>= λ q.
                write_on_new net (with_pool r₁ task.sync q.0) q.1 task))
    identified m ok near = Yields-bind (Near r₀) (Fate r₀ task) m _ near (λ r₁ n₁.
        Yields-if (Fate r₀ task) (not ok) _ _ (λ h. unreachable-Fate r₀ r₁ task n₁)
          (λ h. again r₁ n₁))

write_on_pooled-Fate :
    (net : Network) (r₀ r : Requester) (dest : Dest) (found : Option PoolSock) (task : ReqTask)
    → Near r₀ r
    → IsTask task
    → Yields (Fate r₀ task) (write_on_pooled net r dest found task)
unfolding write_on_pooled
write_on_pooled-Fate net r₀ r dest none task n good =
    connect_and_write-Fate net r₀ r dest task n good
write_on_pooled-Fate net r₀ r dest (some s) task n good = write_on-Fate net r₀ r s task n.ready good

send_to-Fate :
    (net : Network) (r : Requester) (dest : Dest) (task : ReqTask)
    → IsReady r
    → IsTask task
    → Yields (Fate r task) (send_to net r dest task)
unfolding send_to
send_to-Fate net r dest task v good =
    Yields-bind (λ (q : ClientPool × Option PoolSock). IsCounted q.0) (Fate r task)
      (get_tcp_sock (pool_of r task.sync) dest) _
      (get_tcp_sock-Yields (pool_of r task.sync) dest (pool_of-IsCounted r task.sync v))
      (λ q c.
        write_on_pooled-Fate net r (with_pool r task.sync q.0) dest q.1 task
          (with_pool-Near r task.sync q.0 v c) good)

send_cached-Fate :
    (net : Network) (r : Requester) (dest : Option Dest) (task : ReqTask)
    → IsReady r
    → IsTask task
    → Yields (Fate r task) (send_cached net r dest task)
unfolding send_cached
send_cached-Fate net r none task v good = without_host-Fate r r task (Near-refl r v)
send_cached-Fate net r (some dest) task v good = send_to-Fate net r dest task v good

-- ProcessReqToReceiver loses no task. Let both pools have a counter for each address they know, let
-- the array of the task hold its data, which is shorter than 2^32 - 9 bytes, with an id that fits,
-- and let the task have a name or an address. Then, whatever the network answers, no assertion
-- fails and no memory is read or written outside an array, and the task ends in one of three ways:
-- its data was written, last, on some connection; or the answer is true, the task allows it, the
-- task is the last of those that wait for the address of its name, and the server, if there is
-- one, was asked for that name; or the answer is false and the future of the task is gone.
pub process_req_to_receiver_lem :
    (net : Network) (r : Requester) (task : ReqTask)
    → IsReady r
    → IsTask task
    → (task.clientname ≢ []) ⊎ (task.dest_client.0 ≢ [])
    → (q : Requester × Bool × List ℕ) × (process_req_to_receiver net r task ≡ done q)
      × Fate r task q
unfolding process_req_to_receiver
process_req_to_receiver_lem net r task v good somewhere =
    Yields-elim (Fate r task) (process_req_to_receiver net r task) (
      Yields-if (Fate r task) (bytes_eq task.clientname []) _ _
        (λ unnamed.
          Yields-if (Fate r task) (bytes_eq task.dest_client.0 []) aborted _
            (λ nowhere. absurd (neither unnamed nowhere somewhere))
            (λ h. send_to-Fate net r task.dest_client task v good))
        (λ h. send_cached-Fate net r (safe_get_cached_host_info r task.clientname) task v good))
  where
    neither :
        bytes_eq task.clientname [] ≡ true
        → bytes_eq task.dest_client.0 [] ≡ true
        → (task.clientname ≢ []) ⊎ (task.dest_client.0 ≢ [])
        → ⊥
    neither a b (inl x) = x (bytes_eq→eq task.clientname [] a)
    neither a b (inr y) = y (bytes_eq→eq task.dest_client.0 [] b)
