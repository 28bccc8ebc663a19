-- ===== src/Requester/Write.antt =====
-- WriteTaskDataToReceiver and IdentiySelfToReceiver: a sync byte, the future's id, a length and the
-- data, all of which the receiver reads.
use message_bus_all_in_one_f.Common.{
  ℕ, ◌+◌, ◌%◌, ◌^◌, Bool, true, false, Option, none, some, List, [], ◌∷◌, ◌++◌, ltb, if◌then◌else◌,
}
use message_bus_all_in_one_f.Memory.{Outcome, done, wild, ◌>>=◌, store32, htonl, memcpy}
use message_bus_all_in_one_f.Future.{safe_get_future, safe_remove_future}
use message_bus_all_in_one_f.ClientPool.{PoolSock}
use message_bus_all_in_one_f.Content.{generate_net_msg_content}
use message_bus_all_in_one_f.Requester.State.{ReqTask, Requester}

-- The length of the array is a sum of uint32_t.
unfoldable pub write_len : ReqTask → ℕ
write_len task = (1 + 4 + 4 + task.data_len) % 2 ^ 32

-- What is copied into the array.
unfoldable pub write_data : ReqTask → Outcome (List ℕ)
write_data task = if ltb (write_len task) (1 + 4 + 4 + task.data_len) then wild else do
  bytes ← memcpy task.data_len task.contents
  done (
      (if task.sync then 1 else 0)
      ∷ (store32 (htonl task.future_id) ++ (store32 (htonl task.data_len) ++ bytes)))

-- "send data failed."
abbrev pub send_data_failed : List ℕ
send_data_failed =
    115 ∷ 101 ∷ 110 ∷ 100 ∷ 32 ∷ 100 ∷ 97 ∷ 116 ∷ 97 ∷ 32 ∷ 102 ∷ 97 ∷ 105 ∷ 108 ∷ 101 ∷ 100 ∷ 46
    ∷ []

-- "wait time out."
abbrev pub wait_time_out : List ℕ
wait_time_out = 119 ∷ 97 ∷ 105 ∷ 116 ∷ 32 ∷ 116 ∷ 105 ∷ 109 ∷ 101 ∷ 32 ∷ 111 ∷ 117 ∷ 116 ∷ 46 ∷ []

-- What is waited for after the data was taken: a sync message needs its future, and the answer in
-- time.
unfoldable pub await_answer :
    Bool → Option ℕ → Option (List ℕ) → Requester → Requester × Bool × List ℕ
await_answer false cur waited r = (r, true, [])
await_answer true none waited r = (r, false, [])
await_answer true (some place) none r = (r, false, wait_time_out)
await_answer true (some place) (some content) r = (r, true, content)

-- `sends` is what SendData answers, and `waited` what the future gives to a sync message in time.
-- The bytes are rsp_content, which is empty before the call.
unfoldable pub write_task_data :
    Requester → PoolSock → ReqTask → Bool → Option (List ℕ) → Outcome (Requester × Bool × List ℕ)
write_task_data r sp_tcp task sends waited =
    let cur = (safe_get_future r.future_mgr task.future_id false).1 in
    do
      bytes ← write_data task
      done (
          if sends
          then await_answer task.sync cur waited
              (record r { wires = r.wires ++ ((sp_tcp.fd, bytes) ∷ []) })
          else (
            record r { future_mgr = safe_remove_future r.future_mgr task.future_id },
            false,
            send_data_failed,
          ))

-- GetClientName, or nothing without a server connection.
abbrev pub sender_name : Requester → List ℕ
sender_name r = elim r.server_connmgr [ none ↦ [] | some name ↦ name ]

-- The task with which a new connection names its sender.
unfoldable pub identify_task : Requester → Outcome ReqTask
identify_task r = do
  param ← generate_net_msg_content [] (record { paramdata = []; paramlen = 0 }) (sender_name r)
  done (record {
    clientname = [];
    sync = false;
    future_id = 0;
    retry = false;
    data_len = param.paramlen;
    contents = param.paramdata;
    dest_client = ([], 0);
  })

unfoldable pub identify_self : Requester → PoolSock → Bool → Outcome (Requester × Bool × List ℕ)
identify_self r sp_tcp sends = do task ← identify_task r; write_task_data r sp_tcp task sends none
