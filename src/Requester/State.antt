-- ===== src/Requester/State.antt =====
-- The tasks and the state of Req2ReceiverMgr.
use message_bus_all_in_one_f.Common.{ℕ, Bool, Option, none, some, List, [], ◌∷◌, ◌++◌}
use message_bus_all_in_one_f.Table.{Table, bytes_key, lookup, insert, erase}
use message_bus_all_in_one_f.Future.{FutureMgr}
use message_bus_all_in_one_f.ClientPool.{ClientPool, Dest}

-- Req2ReceiverTask; the data is what the array holds.
pub record ReqTask : Type 0 where
  pub clientname : List ℕ
  pub sync : Bool
  pub future_id : ℕ
  pub retry : Bool
  pub data_len : ℕ
  pub contents : List ℕ
  pub dest_client : Dest

pub record Requester : Type 0 where
  pub running : Bool
  -- m_reqtoreceiver_task_container, m_wait2send_task_container and m_cached_client_info
  pub tasks : List ReqTask
  pub wait2send : Table (List ℕ) (List ReqTask)
  pub cached_client_info : Table (List ℕ) Dest
  pub future_mgr : FutureMgr
  pub sendmsg_pool : ClientPool
  pub postmsg_pool : ClientPool
  -- The name that m_server_connmgr gives this client, if there is one.
  pub server_connmgr : Option (List ℕ)
  -- The names asked for with HandleRspGetClient as the callback, the names for which
  -- "netmsgbus.client.connectreceiver.failed" was posted, and what SendData took on which
  -- descriptor.
  pub asked : List (List ℕ)
  pub unconnected : List (List ℕ)
  pub wires : List (ℕ × List ℕ)

-- The tasks that wait for a client's host.
abbrev pub waiting_for : List ℕ → Table (List ℕ) (List ReqTask) → List ReqTask
waiting_for name m = elim (lookup name m) [ none ↦ [] | some ts ↦ ts ]

unfoldable pub safe_queue_waiting_task : Requester → ReqTask → Requester
safe_queue_waiting_task r task = record r {
  wait2send =
      insert task.clientname (waiting_for task.clientname r.wait2send ++ (task ∷ [])) r.wait2send;
}

unfoldable pub safe_get_cached_host_info : Requester → List ℕ → Option Dest
safe_get_cached_host_info r name = lookup name r.cached_client_info

unfoldable pub safe_remove_cached_host_info : Requester → List ℕ → Requester
safe_remove_cached_host_info r name = record r {
  cached_client_info = erase name r.cached_client_info;
}

unfoldable pub queue_req_task_to_receiver : Requester → ReqTask → Requester
queue_req_task_to_receiver r task = record r { tasks = r.tasks ++ (task ∷ []) }

-- ReqReceiverInfo with HandleRspGetClient as its callback.
unfoldable pub ask_server : Requester → List ℕ → Requester
ask_server r name = elim r.server_connmgr [
  | none ↦ r
  | some me ↦ record r { asked = r.asked ++ (name ∷ []) }
]
