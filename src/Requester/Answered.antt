-- ===== src/Requester/Answered.antt =====
-- HandleRspGetClient: the server has answered where a client is.
use message_bus_all_in_one_f.Common.{
  ℕ, [], ◌∷◌, false, Bool, Option, none, some, List, ◌++◌, length, ◌==◌, if◌then◌else◌,
}
use message_bus_all_in_one_f.Memory.{Outcome, done, wild, ◌>>=◌}
use message_bus_all_in_one_f.Table.{bytes_key, insert, erase}
use message_bus_all_in_one_f.ClientPool.{Dest}
use message_bus_all_in_one_f.Wire.Host.{Inet, up_to_nul, host_ip, host_port, store_host}
use message_bus_all_in_one_f.Wire.GetClient.{GetClientRsp, unpack_getclient_rsp}
use message_bus_all_in_one_f.Requester.State.{
  ReqTask, Requester, waiting_for, queue_req_task_to_receiver,
}
use message_bus_all_in_one_f.Requester.Process.{forget}

abbrev pub no_retry : ReqTask → ReqTask
no_retry task = record task { retry = false }

unfoldable pub queue_all : Requester → List ReqTask → Requester
queue_all r [] = r
queue_all r (task ∷ ts) = queue_all (queue_req_task_to_receiver r (no_retry task)) ts

unfoldable pub forget_all : Requester → List ReqTask → Requester
forget_all r [] = r
forget_all r (task ∷ ts) = forget_all (forget r task) ts

-- With the name, the code and the address.
unfoldable pub handle_host : Requester → List ℕ → ℕ → Dest → Requester
handle_host r name ret_code dest =
    let pending = waiting_for name r.wait2send in
    let r₁ = record r { wait2send = erase name r.wait2send } in
    if ret_code == 0
    then queue_all (record r₁ { cached_client_info = insert name dest r₁.cached_client_info })
        pending
    else forget_all r₁ pending

-- std::string(rsp.dest_name): up to a NUL, which may stand in dest_host behind the array, but has to
-- stand inside the object.
unfoldable pub name_of : GetClientRsp → Outcome (List ℕ)
name_of rsp =
    let memory = rsp.dest_name ++ store_host rsp.dest_host in
    if length (up_to_nul memory) == length memory then wild else done (up_to_nul memory)

module _ ⦃net : Inet⦄ where
  unfoldable pub handle_rsp : Requester → GetClientRsp → Outcome Requester
  handle_rsp r rsp = do
    name ← name_of rsp
    done (handle_host r name rsp.ret_code (host_ip rsp.dest_host, host_port rsp.dest_host))

  -- `result` is what the future gives, and `rsp` what the stack holds in the object. A bare `throw`
  -- ends the program: the catch does not see it.
  unfoldable pub handle_rsp_get_client :
      Requester → Option (List ℕ) → Bool → GetClientRsp → Outcome Requester
  handle_rsp_get_client r result has_err rsp = elim result [
    | none ↦ done r
    | some rspdata ↦
        if has_err
        then done r
        else (do (got, code) ← unpack_getclient_rsp rsp rspdata (length rspdata); handle_rsp r got)
  ]
