-- ===== src/Requester/Pending.antt =====
-- HandleRspGetClient: what happens to the messages that waited for an address.
use message_bus_all_in_one_f.Common.{
  ℕ, false, ◌≡◌, ◌≢◌, refl, sym, ap, subst, ◌∙◌, none, some, List, [], ◌∷◌, ◌++◌, All, map, length,
  length-append, ◌<◌, ◌^◌, ◌+◌, zero, suc, ==_refl, ◌==◌, bytes_eq_refl, arith,
}
use mathlib.Core.List.{append-nil, append_assoc}
use message_bus_all_in_one_f.Memory.Yields.{if-both}
use message_bus_all_in_one_f.Table.{
  Table, nat_key, bytes_key, lookup, insert, erase, lookup-erase, lookup-insert,
}
use message_bus_all_in_one_f.Future.{safe_remove_future}
use message_bus_all_in_one_f.ClientPool.{Dest}
use message_bus_all_in_one_f.Requester.State.{
  ReqTask, Requester, waiting_for, queue_req_task_to_receiver,
}
use message_bus_all_in_one_f.Requester.Process.{forget}
use message_bus_all_in_one_f.Requester.Answered.{
  no_retry, queue_all, forget_all, handle_host, name_of, handle_rsp, handle_rsp_get_client,
}
use message_bus_all_in_one_f.Memory.{done}
use message_bus_all_in_one_f.Memory.Copy.{padded, length-padded}
use message_bus_all_in_one_f.Wire.Host.{
  Inet, HostInRange, up_to_nul, host_ip, host_port, store_host,
}
use message_bus_all_in_one_f.Wire.Register.{name_size}
use message_bus_all_in_one_f.Wire.GetClient.{GetClientRsp, pack_getclient_rsp}
use message_bus_all_in_one_f.Wire.GetClient.RoundTrip.{
  getclient_rsp_bytes, pack_getclient_rsp_lem, unpack_getclient_rsp_whole,
}

-- No future waits under the id of the task.
abbrev pub IsForgotten : Requester → ReqTask → Type 0
IsForgotten r task = lookup task.future_id r.future_mgr.container ≡ none

queue_all_lem :
    (r : Requester) (ts : List ReqTask)
    → queue_all r ts ≡ record r { tasks = r.tasks ++ map no_retry ts }
unfolding queue_all queue_req_task_to_receiver
queue_all_lem r [] = ap (λ xs. record r { tasks = xs }) (sym (append-nil r.tasks))
queue_all_lem r (task ∷ ts) =
    queue_all_lem (queue_req_task_to_receiver r (no_retry task)) ts
    ∙ ap (λ xs. record r { tasks = xs })
        (append_assoc r.tasks (no_retry task ∷ []) (map no_retry ts))

forget-IsForgotten :
    (r : Requester) (task other : ReqTask) → IsForgotten r other → IsForgotten (forget r task) other
unfolding safe_remove_future
forget-IsForgotten r task other h =
    lookup-erase task.future_id other.future_id r.future_mgr.container ∙ ground (arith, h)

forget_all-IsForgotten :
    (r : Requester) (ts : List ReqTask) (other : ReqTask)
    → IsForgotten r other
    → IsForgotten (forget_all r ts) other
unfolding forget_all
forget_all-IsForgotten r [] other h = h
forget_all-IsForgotten r (task ∷ ts) other h =
    forget_all-IsForgotten (forget r task) ts other (forget-IsForgotten r task other h)

forget_all-All : (r : Requester) (ts : List ReqTask) → All (IsForgotten (forget_all r ts)) ts
unfolding forget_all safe_remove_future
forget_all-All r [] = tt
forget_all-All r (task ∷ ts) = (
  forget_all-IsForgotten (forget r task) ts task (
      rw (lookup-erase task.future_id task.future_id r.future_mgr.container, ==_refl task.future_id)
        refl),
  forget_all-All (forget r task) ts,
)

forget_all_same :
    (r : Requester) (ts : List ReqTask)
    → ((forget_all r ts).tasks ≡ r.tasks) × ((forget_all r ts).wait2send ≡ r.wait2send)
unfolding forget_all
forget_all_same r [] = (refl, refl)
forget_all_same r (task ∷ ts) = forget_all_same (forget r task) ts

-- The state after the answer of the server for a name.
pub data Handled (r : Requester) (name : List ℕ) (dest : Dest) : ℕ → Requester → Type 0 where
  resumed :
      {ret_code : ℕ} {r' : Requester}
      → ret_code ≡ 0
      → lookup name r'.wait2send ≡ none
      → lookup name r'.cached_client_info ≡ some dest
      → r'.tasks ≡ r.tasks ++ map no_retry (waiting_for name r.wait2send)
      → Handled r name dest ret_code r'
  dropped :
      {ret_code : ℕ} {r' : Requester}
      → ret_code ≢ 0
      → lookup name r'.wait2send ≡ none
      → r'.tasks ≡ r.tasks
      → All (IsForgotten r') (waiting_for name r.wait2send)
      → Handled r name dest ret_code r'

erase-lookup :
    (name : List ℕ) (m : Table (List ℕ) (List ReqTask)) → lookup name (erase name m) ≡ none
erase-lookup name m = rw (lookup-erase name name m, bytes_eq_refl name) refl

insert-lookup :
    (name : List ℕ) (dest : Dest) (m : Table (List ℕ) Dest)
    → lookup name (insert name dest m) ≡ some dest
insert-lookup name dest m = rw (lookup-insert name name dest m, bytes_eq_refl name) refl

handle_host-Handled :
    (r : Requester) (name : List ℕ) (ret_code : ℕ) (dest : Dest)
    → Handled r name dest ret_code (handle_host r name ret_code dest)
unfolding handle_host
handle_host-Handled r name ret_code dest =
    if-both {A = Requester} (Handled r name dest ret_code) (ret_code == 0) _ _
      (λ ok. subst (Handled r name dest ret_code) (sym (queue_all_lem known pending)) (
        resumed (ground (arith, ok)) (erase-lookup name r.wait2send)
          (insert-lookup name dest r.cached_client_info) refl))
      (λ no.
        dropped (λ z. absurd (ground (arith, no, z)))
          (ap (lookup name) (forget_all_same rest pending).1 ∙ erase-lookup name r.wait2send)
          (forget_all_same rest pending).0 (forget_all-All rest pending))
  where
    pending : List ReqTask
    pending = waiting_for name r.wait2send

    rest : Requester
    rest = record r { wait2send = erase name r.wait2send }

    known : Requester
    known = record rest { cached_client_info = insert name dest r.cached_client_info }

up_to_nul-padded :
    (n : ℕ) (s rest : List ℕ)
    → length (up_to_nul s) < n
    → up_to_nul (padded n s ++ rest) ≡ up_to_nul s
unfolding up_to_nul padded
up_to_nul-padded zero s rest h = absurd (omega arith)
up_to_nul-padded (suc n) [] rest h = refl
up_to_nul-padded (suc n) (c ∷ s) rest h = ground (arith, up_to_nul-padded n s rest, h)

-- The array is a NUL at least longer than the name.
name_of_lem :
    (rsp : GetClientRsp)
    → length (up_to_nul rsp.dest_name) < name_size
    → name_of (record rsp { dest_name = padded name_size rsp.dest_name })
      ≡ done (up_to_nul rsp.dest_name)
unfolding name_of
name_of_lem rsp short =
    rw
      (
        up_to_nul-padded name_size rsp.dest_name (store_host rsp.dest_host) short,
        length-append (padded name_size rsp.dest_name) (store_host rsp.dest_host),
        length-padded name_size rsp.dest_name,
        not_whole,
      )
      refl
  where
    not_whole :
        (length (up_to_nul rsp.dest_name) == (name_size + length (store_host rsp.dest_host)))
        ≡ false
    not_whole = ground (arith, short)

-- The server's answer for a name of less than MAX_SERVICE_NAME bytes comes in as it was packed: then
-- no task waits for the name any more. With the code 0 the address is in the cache, and the tasks
-- that waited stand behind the others, in their order, and are not to wait a second time; with
-- another code no task is queued, and none of those that waited has a future.
pub handle_rsp_get_client_lem :
    ⦃net : Inet⦄ (r : Requester) (rsp rsp₀ : GetClientRsp)
    → length rsp.dest_name ≡ name_size
    → length (up_to_nul rsp.dest_name) < name_size
    → rsp.ret_code < 2 ^ 16
    → HostInRange rsp.dest_host
    → (bytes : List ℕ) × (pack_getclient_rsp rsp 0 ≡ done bytes)
      × (r' : Requester) × (handle_rsp_get_client r (some bytes) false rsp₀ ≡ done r')
      × Handled r
          (up_to_nul rsp.dest_name)
          (host_ip rsp.dest_host, host_port rsp.dest_host)
          rsp.ret_code
          r'
unfolding handle_rsp_get_client handle_rsp
handle_rsp_get_client_lem r rsp rsp₀ whole short code host = (
  getclient_rsp_bytes rsp,
  pack_getclient_rsp_lem rsp whole,
  handle_host r (up_to_nul rsp.dest_name) rsp.ret_code
      (host_ip rsp.dest_host, host_port rsp.dest_host),
  rw (unpack_getclient_rsp_whole rsp rsp₀ code host) (rw (name_of_lem rsp short) refl),
  handle_host-Handled r (up_to_nul rsp.dest_name) rsp.ret_code
      (host_ip rsp.dest_host, host_port rsp.dest_host),
)
