-- ===== src/Server/Relay.antt =====
-- The relay of Core/msgbus_server.cpp: process_sendmsg_req queues a message, and the process thread
-- sends what is queued to the clients whose names match.
pub mod Cut
pub mod Queueing
pub mod Among
pub mod Ascending
pub mod Delivery
use message_bus_all_in_one_f.Common.{
  ℕ, zero, suc, ◌%◌, ◌^◌, ◌+◌, ◌-◌, Bool, true, false, ◌&&◌, ◌||◌, Option, none, some, List, [],
  ◌∷◌, ◌++◌, length, if◌then◌else◌,
}
use message_bus_all_in_one_f.Memory.{Outcome, done, ◌>>=◌, c_string}
use message_bus_all_in_one_f.Table.{Table, nat_key, insert}
use message_bus_all_in_one_f.Wire.Head.{Head, new_head}
use message_bus_all_in_one_f.Wire.Message.{Message, pack_data}
use message_bus_all_in_one_f.Wire.VarData.{no_var_data, set_var_data}
use message_bus_all_in_one_f.Wire.SendMsg.{
  SendMsgReq, unpack_sendmsg_req, sendmsg_req, req_sendmsg, SendMsgRsp, sendmsg_rsp, rsp_sendmsg,
}
use message_bus_all_in_one_f.Server.{Server, Sock, ReqTask, BroadcastTask, send}
use message_bus_all_in_one_f.Server.Names.{is_prefix_matching}
use message_bus_all_in_one_f.Server.Select.{select_best_sock}
use message_bus_all_in_one_f.Server.Registry.{codes, is_nil}
use message_bus_all_in_one_f.Server.Registration.{answer_head, terminated}

-- The search for a matching service that has a connection.
unfoldable pub is_exist : Table (List ℕ) (Table ℕ Sock) → List ℕ → Bool
is_exist [] dest = false
is_exist ((name, socks) ∷ active) dest =
    let rest = is_exist active dest in
    if is_prefix_matching name dest then (if is_nil socks then rest else true) else rest

-- The queued task: a broadcast where the destination is empty.
unfoldable pub queue_task : Server → List ℕ → List ℕ → Server
queue_task s dest bytes =
    if is_nil dest
    then record s { broadcast_tasks = s.broadcast_tasks ++ (record { task_bytes = bytes } ∷ []) }
    else record s {
      req_tasks = s.req_tasks ++ (record { client_name = dest; task_bytes = bytes } ∷ []);
    }

-- The object that the handler declares: its arrays hold whatever the stack held.
abbrev pub fresh_req : List ℕ → List ℕ → SendMsgReq
fresh_req dest_junk from_junk = record {
  dest_name = dest_junk;
  from_name = from_junk;
  msg_len = 0;
  msg_content = no_var_data;
}

abbrev pub sendmsg_answer : Head → ℕ → List ℕ → Message SendMsgRsp
sendmsg_answer head ret errmsg = record {
  head = answer_head rsp_sendmsg head;
  body = record {
    ret_code = ret;
    err_msg_len = length (terminated errmsg) % 2 ^ 16;
    err_msg = set_var_data no_var_data (terminated errmsg);
  };
}

-- The request packed anew, with the class's own head, and queued.
unfoldable pub forward : Server → List ℕ → SendMsgReq → Outcome Server
forward s dest req = do
  (m, bytes) ← pack_data sendmsg_req (record { head = new_head 0 req_sendmsg; body = req }) 0
  done (queue_task s dest bytes)

-- What UnPackBody returns is ignored.
unfoldable pub process_sendmsg_req :
    List ℕ → List ℕ → Server → Option Sock → Head → List ℕ → ℕ → Outcome Server
process_sendmsg_req dest_junk from_junk s sp_tcp head body body_len = do
  (req, result) ← unpack_sendmsg_req (fresh_req dest_junk from_junk) body body_len
  dest ← c_string req.dest_name
  if is_exist s.active dest
      then (do
        s' ← forward s dest req
        (rsp, bytes) ← pack_data sendmsg_rsp (sendmsg_answer head 0 []) 0
        done (send s' sp_tcp bytes))
      else (do
        (rsp, bytes) ←
            pack_data sendmsg_rsp (sendmsg_answer head 1 (codes "dest client not found.")) 0
        done (send s sp_tcp bytes))

-- The connections that a queued message goes to: one of each matching service, by address.
-- `rands` gives the random number that each place of the map draws.
unfoldable pub choose : (List ℕ → Bool) → Table (List ℕ) (Table ℕ Sock) → (ℕ → ℕ) → Table ℕ Sock
choose matches [] rands = []
choose matches ((name, socks) ∷ active) rands =
    let rest = choose matches active (λ i. rands (suc i)) in
    if matches name
    then elim (select_best_sock (rands 0) socks) [
      | none ↦ rest
      | some sock ↦ insert sock.address sock rest
    ]
    else rest

-- SendData to each.
unfoldable pub send_all : Server → Table ℕ Sock → List ℕ → Server
send_all s [] bytes = s
send_all s ((address, sock) ∷ socks) bytes = send_all (send s (some sock) bytes) socks bytes

-- One queued message of the process thread.
unfoldable pub deliver : Server → ReqTask → (ℕ → ℕ) → Server
deliver s task rands =
    send_all s (choose (λ name. is_prefix_matching name task.client_name) s.active rands)
      task.task_bytes

-- The clients of a broadcast are kept by service, so each service's choice is sent to.
unfoldable pub broadcast_to : Server → Table (List ℕ) (Table ℕ Sock) → (ℕ → ℕ) → List ℕ → Server
broadcast_to s [] rands bytes = s
broadcast_to s ((name, socks) ∷ active) rands bytes =
    let next : Server = elim (select_best_sock (rands 0) socks) [
      | none ↦ s
      | some sock ↦ send s (some sock) bytes
    ] in
    broadcast_to next active (λ i. rands (suc i)) bytes

unfoldable pub broadcast : Server → BroadcastTask → (ℕ → ℕ) → Server
broadcast s task rands = broadcast_to s s.active rands task.task_bytes
