-- ===== src/Requester/Received.antt =====
-- What Req2ReceiverMgr writes, read by ReceiverMgr.
use message_bus_all_in_one_f.Common.{
  ℕ, ◌+◌, ◌%◌, ◌<◌, ◌^◌, false, ◌≡◌, refl, sym, ap, ◌∙◌, List, [], ◌∷◌, ◌++◌, length, map, All, ltb,
  le→ltb_false, arith, if◌then◌else◌,
}
use mathlib.Core.List.{append-nil}
use message_bus_all_in_one_f.Memory.{Outcome, done, ◌>>=◌, memcpy}
use message_bus_all_in_one_f.Memory.Copy.{memcpy-append}
use message_bus_all_in_one_f.Filter.{Filters}
use message_bus_all_in_one_f.Receiver.{Receiver, receiver_on_read}
use message_bus_all_in_one_f.Receiver.Stream.{
  Packet, IsPacket, packets, packets_size, receive_all, IsPartial, receiver_on_read_lem, prefixed,
}
use message_bus_all_in_one_f.Requester.State.{ReqTask}
use message_bus_all_in_one_f.Requester.Write.{write_len, write_data}

-- A task with the length of its data, which fits in a packet, and an id of 32 bits.
pub record IsTask (task : ReqTask) : Type 0 where
  pub whole : task.data_len ≡ length task.contents
  pub fits : 1 + 4 + 4 + length task.contents < 2 ^ 32
  pub id_fits : task.future_id < 2 ^ 32

-- The message that the receiver makes of it.
abbrev pub packet_of : ReqTask → Packet
packet_of task = record {
  is_sync = if task.sync then 1 else 0;
  sync_sid = task.future_id;
  content = task.contents;
}

-- What WriteTaskDataToReceiver gives to SendData for one task after the other, and then other bytes.
unfoldable pub write_all : List ReqTask → List ℕ → Outcome (List ℕ)
write_all [] tail = done tail
write_all (task ∷ ts) tail = do
  bytes ← write_data task
  rest ← write_all ts tail
  done (bytes ++ rest)

memcpy_whole : (xs : List ℕ) → memcpy (length xs) xs ≡ done xs
memcpy_whole xs = ap (memcpy (length xs)) (sym (append-nil xs)) ∙ memcpy-append xs []

pub write_data-packet :
    (task : ReqTask)
    → IsTask task
    → write_data task
      ≡ done (
          prefixed (if task.sync then 1 else 0) task.future_id (length task.contents) task.contents)
unfolding write_data write_len
write_data-packet task v = rw (v.whole, no_wrap, memcpy_whole task.contents) refl
  where
    n : ℕ
    n = length task.contents

    no_wrap : ltb ((1 + 4 + 4 + n) % 2 ^ 32) (1 + 4 + 4 + n) ≡ false
    no_wrap = le→ltb_false ((1 + 4 + 4 + n) % 2 ^ 32) (1 + 4 + 4 + n) (omega (arith, v.fits))

prefixed_append : (s i n : ℕ) (xs ys : List ℕ) → prefixed s i n xs ++ ys ≡ prefixed s i n (xs ++ ys)
prefixed_append s i n xs ys = refl

write_all-packets :
    (ts : List ReqTask) (tail : List ℕ)
    → All IsTask ts
    → write_all ts tail ≡ done (packets (map packet_of ts) tail)
unfolding write_all
write_all-packets [] tail v = refl
write_all-packets (task ∷ ts) tail v =
    rw (write_data-packet task v.0, write_all-packets ts tail v.1) refl

tasks_packets : (ts : List ReqTask) → All IsTask ts → All IsPacket (map packet_of ts)
tasks_packets [] v = tt
tasks_packets (task ∷ ts) v =
    (record { sid_fits = v.0.id_fits; len_fits = omega (arith, v.0.fits) }, tasks_packets ts v.1)

-- Messages of any number of tasks on one connection, each with an id of 32 bits and data that fits in
-- a packet, followed by the beginning of a further message at most: ReceiverMgr receives the data of
-- each task, with its id, in the order of the tasks, and uses up exactly their bytes.
pub write_all_received :
    (filters : Filters) (fd : ℕ) (r : Receiver) (ts : List ReqTask) (tail : List ℕ)
    → All IsTask ts
    → IsPartial tail
    → (bytes : List ℕ) × (write_all ts tail ≡ done bytes)
      × (receiver_on_read filters fd r bytes
          ≡ done (receive_all filters fd r (map packet_of ts), packets_size (map packet_of ts)))
write_all_received filters fd r ts tail v part = (
  packets (map packet_of ts) tail,
  write_all-packets ts tail v,
  receiver_on_read_lem filters fd r (map packet_of ts) tail (tasks_packets ts v) part,
)
