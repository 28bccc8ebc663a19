-- ===== src/Tests/Receiving.antt =====
-- The receiver of Core/NetMsgBusReceiverMgr.hpp.
use message_bus_all_in_one_f.Common.{◌≡◌, refl, some, [], ◌∷◌, ◌++◌, arith, inl, bytes_eq_refl}
use message_bus_all_in_one_f.Memory.{done}
use message_bus_all_in_one_f.Table.{nat_key, lookup}
use message_bus_all_in_one_f.Content.{get_msg_sender}
use message_bus_all_in_one_f.Filter.{Filters, filter_by_sender, is_included}
use message_bus_all_in_one_f.Receiver.{Receiver, check_msg_sender, receiver_on_read}
use message_bus_all_in_one_f.Receiver.Stream.{
  Packet, packets, packets_size, receive_all, receiver_on_read_lem,
}
use message_bus_all_in_one_f.Receiver.Senders.{answered, receive_all_lem}
use message_bus_all_in_one_f.Tests.Data.{ab}

-- Only "ab" may send.
abbrev only_ab : Filters
only_ab = record { include_senders = ab ∷ []; exclude_msgids = [] }

abbrev receiver : Receiver
receiver = record { client_senders = []; clientnum = 1; queued = []; disallowed = [] }

-- A content that is too short to show a sender, and one from "ab".
abbrev nameless : Packet
nameless = record { is_sync = 1; sync_sid = 4; content = 2 ∷ 97 ∷ [] }

abbrev from_ab : Packet
from_ab = record { is_sync = 1; sync_sid = 5; content = 2 ∷ 97 ∷ 98 ∷ 0 ∷ [] }

receiver_on_read_lem_example :
    receiver_on_read only_ab 3 receiver (packets (nameless ∷ from_ab ∷ []) (1 ∷ 0 ∷ []))
    ≡ done (
      receive_all only_ab 3 receiver (nameless ∷ from_ab ∷ []),
      packets_size (nameless ∷ from_ab ∷ []),
    )
receiver_on_read_lem_example =
    receiver_on_read_lem only_ab 3 receiver (nameless ∷ from_ab ∷ []) (1 ∷ 0 ∷ [])
      (
        (record { sid_fits = omega arith; len_fits = omega arith }),
        ((record { sid_fits = omega arith; len_fits = omega arith }), tt),
      )
      (inl (omega arith))

receive_all_lem_example :
    ((receive_all only_ab 3 receiver (nameless ∷ from_ab ∷ nameless ∷ [])).queued
      ≡ [] ++ answered (from_ab ∷ nameless ∷ []))
    × (lookup 3 (receive_all only_ab 3 receiver (nameless ∷ from_ab ∷ nameless ∷ [])).client_senders
        ≡ some ab)
unfolding lookup check_msg_sender get_msg_sender filter_by_sender is_included
receive_all_lem_example =
    receive_all_lem only_ab 3 receiver ab (nameless ∷ []) from_ab (nameless ∷ []) refl (refl, tt)
      (rw bytes_eq_refl refl)
