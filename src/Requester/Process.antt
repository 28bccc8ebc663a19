-- ===== src/Requester/Process.antt =====
-- ProcessReqToReceiver: where a task goes, and the calls and the thread that bring tasks to it.
use message_bus_all_in_one_f.Common.{
  ℕ, ◌-◌, Bool, true, false, not, ◌||◌, Option, none, some, List, [], ◌∷◌, ◌++◌, length, drop, leb,
  bytes_eq, if◌then◌else◌,
}
use message_bus_all_in_one_f.Memory.{Outcome, done, aborted, ◌>>=◌}
use message_bus_all_in_one_f.Table.{bytes_key, insert}
use message_bus_all_in_one_f.Future.{safe_insert_future, safe_remove_future}
use message_bus_all_in_one_f.ClientPool.{
  ClientPool, Dest, PoolSock, Attempt, get_tcp_sock, create_tcp_sock,
}
use message_bus_all_in_one_f.Requester.State.{
  ReqTask, Requester, safe_queue_waiting_task, safe_get_cached_host_info,
  safe_remove_cached_host_info, queue_req_task_to_receiver, ask_server,
}
use message_bus_all_in_one_f.Requester.Write.{write_task_data, identify_self}

-- CLIENT_POOL_SIZE
abbrev pub client_pool_size : ℕ
client_pool_size = 4

-- What the network answers while a task is processed: to the attempts to connect, in which `posted`
-- is what SendData answers to the identification, and to the message.
pub record Network : Type 0 where
  pub attempts : List Attempt
  pub sends : Bool
  pub waited : Option (List ℕ)

unfoldable pub pool_of : Requester → Bool → ClientPool
pool_of r sync = if sync then r.sendmsg_pool else r.postmsg_pool

unfoldable pub with_pool : Requester → Bool → ClientPool → Requester
with_pool r sync p = if sync then record r { sendmsg_pool = p } else record r { postmsg_pool = p }

abbrev pub forget : Requester → ReqTask → Requester
forget r task = record r { future_mgr = safe_remove_future r.future_mgr task.future_id }

-- The new connections say who this client is, whether or not they are kept.
unfoldable pub identify_all : Requester → List (PoolSock × Bool) → Outcome Requester
identify_all r [] = done r
identify_all r ((s, sends) ∷ socks) = do
  (r₁, ok, rsp) ← identify_self r s sends
  identify_all r₁ socks

-- No connection to the host: the task waits for a new address, or fails.
unfoldable pub unreachable : Requester → ReqTask → Requester × Bool
unreachable r task =
    if task.retry
    then (
      ask_server (safe_remove_cached_host_info (safe_queue_waiting_task r task) task.clientname)
          task.clientname,
      true,
    )
    else (forget (record r { unconnected = r.unconnected ++ (task.clientname ∷ []) }) task, false)

-- The message on a connection.
unfoldable pub write_on :
    Network → Requester → PoolSock → ReqTask → Outcome (Requester × Bool × List ℕ)
write_on net r s task = do
  (r₁, ok, rsp) ← write_task_data r s task net.sends net.waited
  done (if ok then (r₁, true, rsp) else (forget r₁ task, false, rsp))

-- A branch that does not write: its answer, and no data.
unfoldable pub unanswered : Requester × Bool → Requester × Bool × List ℕ
unanswered (r, ok) = (r, ok, [])

-- The second look into the pool, after the connections were made.
unfoldable pub write_on_new :
    Network → Requester → Option PoolSock → ReqTask → Outcome (Requester × Bool × List ℕ)
write_on_new net r none task = done (forget r task, false, [])
write_on_new net r (some s) task = write_on net r s task

-- New connections, and the message on one of them.
unfoldable pub connect_and_write :
    Network → Requester → Dest → ReqTask → Outcome (Requester × Bool × List ℕ)
connect_and_write net r dest task = do
  (p, ok, socks) ← create_tcp_sock (pool_of r task.sync) dest client_pool_size net.attempts
  r₁ ← identify_all (with_pool r task.sync p) socks
  if not ok then done (unanswered (unreachable r₁ task)) else (do
    (p₂, found) ← get_tcp_sock (pool_of r₁ task.sync) dest
    write_on_new net (with_pool r₁ task.sync p₂) found task)

-- The first look into the pool.
unfoldable pub write_on_pooled :
    Network → Requester → Dest → Option PoolSock → ReqTask → Outcome (Requester × Bool × List ℕ)
write_on_pooled net r dest none task = connect_and_write net r dest task
write_on_pooled net r dest (some s) task = write_on net r s task

-- With the address of the host.
unfoldable pub send_to : Network → Requester → Dest → ReqTask → Outcome (Requester × Bool × List ℕ)
send_to net r dest task = do
  (p, found) ← get_tcp_sock (pool_of r task.sync) dest
  write_on_pooled net (with_pool r task.sync p) dest found task

-- Without an address: the task waits while the server is asked, or fails.
unfoldable pub without_host : Requester → ReqTask → Requester × Bool
without_host r task =
    if task.retry
    then (ask_server (safe_queue_waiting_task r task) task.clientname, true)
    else (forget r task, false)

-- With the host of the cache, or without.
unfoldable pub send_cached :
    Network → Requester → Option Dest → ReqTask → Outcome (Requester × Bool × List ℕ)
send_cached net r none task = done (unanswered (without_host r task))
send_cached net r (some dest) task = send_to net r dest task

unfoldable pub process_req_to_receiver :
    Network → Requester → ReqTask → Outcome (Requester × Bool × List ℕ)
process_req_to_receiver net r task =
    if bytes_eq task.clientname []
    then (if bytes_eq task.dest_client.0 [] then aborted else send_to net r task.dest_client task)
    else send_cached net r (safe_get_cached_host_info r task.clientname) task

-- SendMsgDirectToClient to an address: the message waits for its answer.
unfoldable pub send_msg_by_host :
    Network → Requester → Dest → ℕ → List ℕ → ℕ → Outcome (Requester × Bool × List ℕ)
send_msg_by_host net r dest data_len contents now =
    if bytes_eq dest.0 [] || not r.running then done (r, false, []) else do
      (m, id, place) ← safe_insert_future r.future_mgr false now
      process_req_to_receiver net (record r { future_mgr = m })
          (record {
            clientname = [];
            sync = true;
            future_id = id;
            retry = false;
            data_len = data_len;
            contents = contents;
            dest_client = dest;
          })

-- SendMsgDirectToClient to a name; `answer` is what the server answers to ReqReceiverInfo, in time.
unfoldable pub send_msg_by_name :
    Network
    → Option Dest
    → Requester
    → List ℕ
    → ℕ
    → List ℕ
    → ℕ
    → Outcome (Requester × Bool × List ℕ)
send_msg_by_name net answer r name data_len contents now =
    if bytes_eq name [] || not r.running
    then done (r, false, [])
    else elim (safe_get_cached_host_info r name) [
      | some dest ↦ send_msg_by_host net r dest data_len contents now
      | none ↦ elim r.server_connmgr [
        | none ↦ done (r, false, [])
        | some me ↦ elim answer [
          | none ↦ done (r, false, [])
          | some dest ↦
              send_msg_by_host net
                (record r { cached_client_info = insert name dest r.cached_client_info }) dest
                data_len contents now
        ]
      ]
    ]

-- The two forms of PostMsgDirectToClient, with the place of the future that they return.
unfoldable pub post_msg :
    Requester → List ℕ → Dest → Bool → ℕ → List ℕ → Bool → ℕ → Outcome (Requester × Option ℕ)
post_msg r name dest retry data_len contents callback now = do
  (m, id, place) ← safe_insert_future r.future_mgr callback now
  done (
    queue_req_task_to_receiver (record r { future_mgr = m })
        (record {
          clientname = name;
          sync = false;
          future_id = id;
          retry = retry;
          data_len = data_len;
          contents = contents;
          dest_client = dest;
        }),
    some place,
  )

unfoldable pub post_msg_by_host :
    Requester → Dest → ℕ → List ℕ → Bool → ℕ → Outcome (Requester × Option ℕ)
post_msg_by_host r dest data_len contents callback now =
    if not r.running || bytes_eq dest.0 []
    then done (r, none)
    else post_msg r [] dest false data_len contents callback now

unfoldable pub post_msg_by_name :
    Requester → List ℕ → ℕ → List ℕ → Bool → ℕ → Outcome (Requester × Option ℕ)
post_msg_by_name r name data_len contents callback now =
    if not r.running
    then done (r, none)
    else post_msg r name ([], 0) true data_len contents callback now

-- The threads by the name of the client: its last two bytes.
unfoldable pub thread_name : List ℕ → List ℕ
thread_name name =
    if leb (length name) 2 then 98 ∷ 121 ∷ 105 ∷ 112 ∷ [] else drop (length name - 2) name

-- One task that ProcessReq2ReceiverThreadFunc takes: the thread that is to process it.
unfoldable pub take_task : Requester → Option (Requester × List ℕ × ReqTask)
take_task r = elim r.tasks [
  | [] ↦ none
  | task ∷ ts ↦ some (record r { tasks = ts }, thread_name task.clientname, task)
]
