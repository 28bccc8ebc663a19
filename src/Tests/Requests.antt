-- ===== src/Tests/Requests.antt =====
-- The direct messages of Core/NetMsgBusReq2ReceiverMgr.hpp.
use message_bus_all_in_one_f.Common.{
  ℕ, Bool, true, false, ◌≡◌, refl, Option, none, some, List, [], ◌∷◌, ◌++◌, map, replicate, arith,
  inl,
}
use message_bus_all_in_one_f.Memory.{done}
use message_bus_all_in_one_f.Table.{nat_key, bytes_key, lookup}
use message_bus_all_in_one_f.Future.{NetFuture}
use message_bus_all_in_one_f.ClientPool.{Dest, Attempt, new_pool}
use message_bus_all_in_one_f.Content.{MsgBusParam, generate_net_msg_content}
use message_bus_all_in_one_f.Filter.{Filters, filter_by_sender, filter_by_msgid, is_included}
use message_bus_all_in_one_f.Receiver.{Receiver, receiver_on_read}
use message_bus_all_in_one_f.Receiver.Stream.{receive_all, packets_size}
use message_bus_all_in_one_f.Receiver.{prefix_size}
use message_bus_all_in_one_f.Receiver.Total.{receiver_on_read_total}
use message_bus_all_in_one_f.Memory.Tail.{Used}
use message_bus_all_in_one_f.Requester.Answers.{answer_prefix}
use message_bus_all_in_one_f.Requester.Total.{req2receiver_on_read_total}
use message_bus_all_in_one_f.Requester.State.{ReqTask, Requester}
use message_bus_all_in_one_f.Requester.Process.{Network, process_req_to_receiver}
use message_bus_all_in_one_f.Requester.Answers.{req2receiver_on_read}
use message_bus_all_in_one_f.Requester.Received.{IsTask, write_all, packet_of, write_all_received}
use message_bus_all_in_one_f.Requester.Completes.{
  Answer, answers, answers_size, take_all, req2receiver_on_read_lem,
}
use message_bus_all_in_one_f.Requester.RoundTrip.{Way, sync_task, sync_round_trip}
use message_bus_all_in_one_f.Requester.Near.{IsReady}
use message_bus_all_in_one_f.Requester.Ends.{Fate}
use message_bus_all_in_one_f.Requester.Fate.{process_req_to_receiver_lem}
use message_bus_all_in_one_f.Requester.Pending.{Handled, handle_rsp_get_client_lem}
use message_bus_all_in_one_f.Requester.Answered.{handle_rsp_get_client}
use message_bus_all_in_one_f.Wire.Host.{up_to_nul, host_ip, host_port}
use message_bus_all_in_one_f.Wire.GetClient.{GetClientRsp, pack_getclient_rsp}
use message_bus_all_in_one_f.Tests.Data.{ab, abc, test_net}

-- A future that waits under the id 7.
abbrev waiting : NetFuture
waiting = record {
  ready = false;
  has_error = false;
  rsp_content = [];
  generated_time = 3;
  has_callback = false;
}

-- A task for "ab", whose address the server has to give.
abbrev task : ReqTask
task = record {
  clientname = ab;
  sync = false;
  future_id = 7;
  retry = true;
  data_len = 2;
  contents = 8 ∷ 9 ∷ [];
  dest_client = ([], 0);
}

abbrev dest : Dest
dest = (50 ∷ [], 80)

-- A client "abc" with the address of "ab", and two more messages for it that wait.
abbrev requester : Requester
requester = record {
  running = true;
  tasks = [];
  wait2send = (ab, task ∷ task ∷ []) ∷ [];
  cached_client_info = (ab, dest) ∷ [];
  future_mgr = record { future_inc_id = 7; container = (7, 0) ∷ []; futures = waiting ∷ [] };
  sendmsg_pool = new_pool;
  postmsg_pool = new_pool;
  server_connmgr = some abc;
  asked = [];
  unconnected = [];
  wires = [];
}

abbrev receiver : Receiver
receiver = record { client_senders = []; clientnum = 1; queued = []; disallowed = [] }

abbrev all_allowed : Filters
all_allowed = record { include_senders = []; exclude_msgids = [] }

task-IsTask : IsTask task
task-IsTask = record { whole = refl; fits = omega arith; id_fits = omega arith }

-- Two connections, and no third.
abbrev network : Network
network = record { attempts = attempt 100 3 ∷ attempt 200 4 ∷ []; sends = true; waited = none }
  where
    attempt : ℕ → ℕ → Attempt
    attempt address fd = record {
      connects = some (record { address = address; fd = fd; dest = some dest });
      in_loop = true;
      posted = true;
    }

no_pools : IsReady requester
unfolding lookup
no_pools = record {
  sendmsg_counted = λ d conns e. absurd cc;
  postmsg_counted = λ d conns e. absurd cc;
}

write_all_received_example :
    (bytes : List ℕ) × (write_all (task ∷ task ∷ []) (1 ∷ 0 ∷ []) ≡ done bytes)
    × (receiver_on_read all_allowed 3 receiver bytes
        ≡ done (
          receive_all all_allowed 3 receiver (map packet_of (task ∷ task ∷ [])),
          packets_size (map packet_of (task ∷ task ∷ [])),
        ))
write_all_received_example =
    write_all_received all_allowed 3 receiver (task ∷ task ∷ []) (1 ∷ 0 ∷ [])
      (task-IsTask, (task-IsTask, tt)) (inl (omega arith))

abbrev answer : Answer
answer = record { sid = 7; content = 5 ∷ 6 ∷ [] }

req2receiver_on_read_lem_example :
    req2receiver_on_read requester (answers (answer ∷ []) (0 ∷ []))
    ≡ done (
      record requester { future_mgr = (take_all (requester.future_mgr, []) (answer ∷ [])).0 },
      (take_all (requester.future_mgr, []) (answer ∷ [])).1,
      answers_size (answer ∷ []),
    )
req2receiver_on_read_lem_example =
    req2receiver_on_read_lem requester (answer ∷ []) (0 ∷ [])
      (record { sid_fits = omega arith; len_fits = omega arith }, tt) (inl (omega arith))

-- Two bytes of a content of four.
req2receiver_on_read_total_example :
    (q : Requester × List ℕ × ℕ) × (req2receiver_on_read requester
        (0 ∷ 0 ∷ 0 ∷ 7 ∷ 0 ∷ 0 ∷ 0 ∷ 4 ∷ 1 ∷ 2 ∷ [])
      ≡ done q)
    × Used answer_prefix 4 (0 ∷ 0 ∷ 0 ∷ 7 ∷ 0 ∷ 0 ∷ 0 ∷ 4 ∷ 1 ∷ 2 ∷ []) q.2
req2receiver_on_read_total_example =
    req2receiver_on_read_total requester (0 ∷ 0 ∷ 0 ∷ 7 ∷ 0 ∷ 0 ∷ 0 ∷ 4 ∷ 1 ∷ 2 ∷ [])

receiver_on_read_total_example :
    (q : Receiver × ℕ) × (receiver_on_read all_allowed 3 receiver
        (1 ∷ 0 ∷ 0 ∷ 0 ∷ 7 ∷ 0 ∷ 0 ∷ 0 ∷ 0 ∷ 1 ∷ [])
      ≡ done q)
    × Used prefix_size 5 (1 ∷ 0 ∷ 0 ∷ 0 ∷ 7 ∷ 0 ∷ 0 ∷ 0 ∷ 0 ∷ 1 ∷ []) q.1
receiver_on_read_total_example =
    receiver_on_read_total all_allowed 3 receiver (1 ∷ 0 ∷ 0 ∷ 0 ∷ 7 ∷ 0 ∷ 0 ∷ 0 ∷ 0 ∷ 1 ∷ [])

-- The local bus answers each message with its own data.
abbrev echo : List ℕ → List ℕ → Option (List ℕ)
echo id contents = some contents

abbrev param : MsgBusParam
param = record { paramdata = 5 ∷ 6 ∷ []; paramlen = 2 }

sync_round_trip_example :
    (content : MsgBusParam) × (generate_net_msg_content ab param abc ≡ done content)
    × Way all_allowed echo 3 requester receiver (sync_task content 7) 0 waiting (5 ∷ 6 ∷ [])
unfolding filter_by_sender filter_by_msgid is_included lookup
sync_round_trip_example =
    sync_round_trip all_allowed echo 3 requester receiver ab abc param 7 0 waiting (5 ∷ 6 ∷ [])
      (omega arith) (omega arith) refl refl refl (omega arith) (omega arith) (omega arith) refl refl

process_req_to_receiver_lem_example :
    (q : Requester × Bool × List ℕ) × (process_req_to_receiver network requester task ≡ done q)
    × Fate requester task q
process_req_to_receiver_lem_example =
    process_req_to_receiver_lem network requester task no_pools task-IsTask (inl (λ e. absurd cc))

-- The server's answer that "ab" has no host.
abbrev rsp : GetClientRsp
rsp = record {
  ret_code = 1;
  dest_name = ab ++ replicate 62 0;
  dest_host = record { ip_ = 49; port_ = 80; busy_state_ = 0 };
}

handle_rsp_get_client_lem_example :
    (bytes : List ℕ) × (pack_getclient_rsp rsp 0 ≡ done bytes)
    × (r' : Requester) × (handle_rsp_get_client requester (some bytes) false rsp ≡ done r')
    × Handled requester
        (up_to_nul rsp.dest_name)
        (host_ip rsp.dest_host, host_port rsp.dest_host)
        1
        r'
unfolding up_to_nul
handle_rsp_get_client_lem_example =
    handle_rsp_get_client_lem requester rsp rsp refl (omega arith) (omega arith)
      (record { ip_fits = omega arith; port_fits = omega arith; state_fits = omega arith })
