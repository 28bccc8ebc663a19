-- ===== src/Tests/Queues.antt =====
-- The byte buffer, the message content, the filters and the futures.
use message_bus_all_in_one_f.Common.{
  ◌+◌, ◌≤◌, ℕ, ◌<◌, ◌^◌, ◌≡◌, ◌≢◌, refl, true, false, some, List, [], ◌∷◌, ◌++◌, length, arith,
  if◌then◌else◌, ◌==◌,
}
use message_bus_all_in_one_f.Memory.{done, wild, store32, htonl}
use message_bus_all_in_one_f.Table.{nat_key, lookup}
use message_bus_all_in_one_f.FastBuffer.{FastBuffer}
use message_bus_all_in_one_f.FastBuffer.Room.{IsValid, content}
use message_bus_all_in_one_f.FastBuffer.Queue.{
  Op, push, pop, reset, run, spec_run, Agrees, run-Agrees,
}
use message_bus_all_in_one_f.Content.{
  MsgBusParam, generate_net_msg_content, get_msg_sender, get_msg_id, get_msg_param,
}
use message_bus_all_in_one_f.Content.RoundTrip.{cut, generate-readers, get_msg_param_wraps}
use message_bus_all_in_one_f.Filter.{Filters}
use message_bus_all_in_one_f.Future.{new_future, FutureMgr, next_id, safe_insert_future}
use message_bus_all_in_one_f.Future.Manager as Manager
use message_bus_all_in_one_f.Tests.Data.{ab, abc}

-- Three bytes of which one has been read.
abbrev buffer : FastBuffer
buffer = record { readstart = 1; writestart = 3; innerdata = 1 ∷ 2 ∷ 3 ∷ 0 ∷ []; halfcounter = 0 }

buffer-IsValid : IsValid buffer
buffer-IsValid = record { read_le_write = omega arith; write_le_size = omega arith }

abbrev ops : List Op
ops = push (4 ∷ 5 ∷ []) ∷ pop 3 ∷ reset ∷ push (6 ∷ []) ∷ []

run-Agrees_example : Agrees (run buffer ops) (spec_run (content buffer) ops)
run-Agrees_example = run-Agrees buffer ops buffer-IsValid

abbrev param : MsgBusParam
param = record { paramdata = 7 ∷ 8 ∷ 9 ∷ []; paramlen = 2 }

generate-readers_example :
    (made : MsgBusParam) × (generate_net_msg_content abc param ab ≡ done made)
    × (made.paramlen ≡ length made.paramdata)
    × (get_msg_sender made.paramdata ≡ some (cut ab))
    × (get_msg_id made.paramdata ≡ some (cut abc))
    × (get_msg_param made.paramdata ≡ done (some (7 ∷ 8 ∷ [])))
    × (made.paramlen ≤ 1 + 255 + 1 + 255 + 4 + param.paramlen)
generate-readers_example = generate-readers abc ab param (omega arith) (omega arith)

-- No parameter at all, and a length of 2 ^ 32 - 1.
get_msg_param_wraps_example :
    get_msg_param (2 ∷ (ab ++ (3 ∷ (abc ++ (store32 (htonl 4294967295) ++ []))))) ≡ wild
get_msg_param_wraps_example =
    get_msg_param_wraps 4294967295 ab abc [] (omega arith) (omega arith) (omega arith) (omega arith)
      (omega arith)

abbrev filters : Filters
filters = record { include_senders = ab ∷ []; exclude_msgids = ab ∷ [] }

-- A manager that is about to run through the ids again, with one future of second 3.
abbrev manager : FutureMgr
manager = record {
  future_inc_id = 4294967295;
  container = (4294967295, 0) ∷ [];
  futures = new_future true 3 ∷ [];
}

manager-IsValid : Manager.IsValid manager
manager-IsValid = record { entries = ((omega arith, omega arith, omega arith), tt) }

safe_insert_future_lem_example :
    (m' : FutureMgr) × (safe_insert_future manager false 5 ≡ done (m', next_id 4294967295, 1))
    × Manager.IsValid m'
    × (next_id 4294967295 ≢ 0)
    × (next_id 4294967295 < 2 ^ 32)
    × (m'.futures ≡ manager.futures ++ (new_future false 5 ∷ []))
    × ((id : ℕ)
        → lookup id m'.container
          ≡ (if id == next_id 4294967295 then some 1 else lookup id manager.container))
unfolding lookup next_id
safe_insert_future_lem_example = Manager.safe_insert_future_lem manager false 5 manager-IsValid refl
