-- ===== src/Receiver/Stream.antt =====
-- receiver_onRead of Core/NetMsgBusReceiverMgr.hpp on what the senders wrote.
use message_bus_all_in_one_f.Common.{
  ℕ, zero, suc, ◌+◌, ◌≤◌, ◌<◌, ◌^◌, ◌≡◌, refl, ap, ◌∙◌, false, List, [], ◌∷◌, ◌++◌, length,
  length-append, drop-append, ltb, arith, All, ◌⊎◌, inl, inr, le→ltb_false, lt→ltb,
}
use message_bus_all_in_one_f.Memory.{done, ◌>>=◌, load8, store32, htonl}
use message_bus_all_in_one_f.Memory.Copy.{memcpy-append}
use message_bus_all_in_one_f.Memory.Words.{net32, htonl-htonl}
use message_bus_all_in_one_f.Table.{nat_key}
use message_bus_all_in_one_f.Filter.{Filters}
use message_bus_all_in_one_f.Receiver.{
  Receiver, receive_one, prefix_size, add_read, receive_loop, receiver_on_read,
}

-- A message of another client.
pub record Packet : Type 0 where
  pub is_sync : ℕ
  pub sync_sid : ℕ
  pub content : List ℕ

pub record IsPacket (p : Packet) : Type 0 where
  pub sid_fits : p.sync_sid < 2 ^ 32
  pub len_fits : length p.content < 2 ^ 32

-- The bytes before a content that is said to have `n` bytes, and what follows.
abbrev pub prefixed : ℕ → ℕ → ℕ → List ℕ → List ℕ
prefixed is_sync sync_sid n rest =
    is_sync ∷ (store32 (htonl sync_sid) ++ (store32 (htonl n) ++ rest))

abbrev pub packets : List Packet → List ℕ → List ℕ
packets [] tail = tail
packets (p ∷ ps) tail =
    prefixed p.is_sync p.sync_sid (length p.content) (p.content ++ packets ps tail)

abbrev pub packets_size : List Packet → ℕ
packets_size [] = 0
packets_size (p ∷ ps) = (prefix_size + length p.content) + packets_size ps

-- The messages one after the other.
abbrev pub receive_all : Filters → ℕ → Receiver → List Packet → Receiver
receive_all filters fd r [] = r
receive_all filters fd r (p ∷ ps) =
    receive_all filters fd (receive_one filters fd r p.content p.sync_sid) ps

-- The beginning of a message that has not come in as a whole.
abbrev pub IsPartial : List ℕ → Type 0
IsPartial tail =
    (length tail < prefix_size)
    ⊎ ((is_sync sync_sid n : ℕ) × (rest : List ℕ) × (tail ≡ prefixed is_sync sync_sid n rest)
        × (n < 2 ^ 32)
        × (length rest < n))

receive_loop_packet :
    (fuel : ℕ) (filters : Filters) (fd : ℕ) (r : Receiver) (p : Packet) (rest : List ℕ)
    → IsPacket p
    → receive_loop
        (suc fuel)
        filters
        fd
        r
        (prefixed p.is_sync p.sync_sid (length p.content) (p.content ++ rest))
      ≡ (receive_loop fuel filters fd (receive_one filters fd r p.content p.sync_sid) rest >>= λ x.
          done (add_read (prefix_size + length p.content) x))
unfolding receive_loop load8
receive_loop_packet fuel filters fd r p rest v =
    rw
      (
        enough_prefix,
        net32 p.sync_sid (store32 (htonl n) ++ (p.content ++ rest)),
        net32 n (p.content ++ rest),
        htonl-htonl p.sync_sid v.sid_fits,
        htonl-htonl n v.len_fits,
        enough_content,
      )
      (rw (memcpy-append p.content rest, drop-append p.content rest) refl)
  where
    n : ℕ
    n = length p.content

    all : List ℕ
    all = prefixed p.is_sync p.sync_sid n (p.content ++ rest)

    enough_prefix : ltb (length all) prefix_size ≡ false
    enough_prefix = le→ltb_false (length all) prefix_size (omega arith)

    enough_content : ltb (length all) (prefix_size + n) ≡ false
    enough_content =
        le→ltb_false (length all) (prefix_size + n) (omega (arith, length-append p.content rest))

receive_loop_part :
    (fuel : ℕ) (filters : Filters) (fd : ℕ) (r : Receiver) (is_sync sync_sid n : ℕ) (rest : List ℕ)
    → n < 2 ^ 32
    → length rest < n
    → receive_loop (suc fuel) filters fd r (prefixed is_sync sync_sid n rest) ≡ done (r, 0)
unfolding receive_loop load8
receive_loop_part fuel filters fd r is_sync sync_sid n rest fits short =
    rw
      (
        le→ltb_false (length all) prefix_size (omega arith),
        net32 sync_sid (store32 (htonl n) ++ rest),
        net32 n rest,
        htonl-htonl n fits,
        lt→ltb (length all) (prefix_size + n) (omega arith),
      )
      refl
  where
    all : List ℕ
    all = prefixed is_sync sync_sid n rest

receive_loop_partial :
    (fuel : ℕ) (filters : Filters) (fd : ℕ) (r : Receiver) (tail : List ℕ)
    → IsPartial tail
    → receive_loop (suc fuel) filters fd r tail ≡ done (r, 0)
unfolding receive_loop
receive_loop_partial fuel filters fd r tail (inl short) =
    rw (lt→ltb (length tail) prefix_size short) refl
receive_loop_partial fuel filters fd r tail (inr (is_sync, sync_sid, n, rest, e, fits, short)) =
    ap (receive_loop (suc fuel) filters fd r) e
    ∙ receive_loop_part fuel filters fd r is_sync sync_sid n rest fits short

receive_loop-packets :
    (fuel : ℕ) (filters : Filters) (fd : ℕ) (r : Receiver) (ps : List Packet) (tail : List ℕ)
    → length ps < fuel
    → All IsPacket ps
    → IsPartial tail
    → receive_loop fuel filters fd r (packets ps tail)
      ≡ done (receive_all filters fd r ps, packets_size ps)
receive_loop-packets zero filters fd r ps tail h good partial = absurd (omega arith)
receive_loop-packets (suc fuel) filters fd r [] tail h good partial =
    receive_loop_partial fuel filters fd r tail partial
receive_loop-packets (suc fuel) filters fd r (p ∷ ps) tail h good partial =
    receive_loop_packet fuel filters fd r p (packets ps tail) good.0
    ∙ rw
        (receive_loop-packets fuel filters fd (receive_one filters fd r p.content p.sync_sid) ps
          tail (omega arith) good.1 partial)
        refl

length-packets : (ps : List Packet) (tail : List ℕ) → length ps ≤ length (packets ps tail)
length-packets [] tail = omega arith
length-packets (p ∷ ps) tail =
    omega (arith, length-append p.content (packets ps tail), length-packets ps tail)

-- Whole messages with ids and lengths of 32 bits, and then the beginning of one at most: each is
-- received in its order with its id and content, and exactly their bytes are used up.
pub receiver_on_read_lem :
    (filters : Filters) (fd : ℕ) (r : Receiver) (ps : List Packet) (tail : List ℕ)
    → All IsPacket ps
    → IsPartial tail
    → receiver_on_read filters fd r (packets ps tail)
      ≡ done (receive_all filters fd r ps, packets_size ps)
unfolding receiver_on_read
receiver_on_read_lem filters fd r ps tail good partial =
    receive_loop-packets (suc (length (packets ps tail))) filters fd r ps tail
      (omega (arith, length-packets ps tail)) good partial
