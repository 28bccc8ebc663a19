-- ===== src/Receiver/Total.antt =====
-- receiver_onRead on any bytes.
use message_bus_all_in_one_f.Common.{
  ℕ, zero, suc, ◌+◌, ◌≤◌, ◌<◌, ◌≡◌, List, length, length-drop, drop, ltb, arith, ltb→lt,
}
use message_bus_all_in_one_f.Memory.{done, ◌>>=◌, load8, load32, ntohl, memcpy}
use message_bus_all_in_one_f.Memory.Inside.{load8_inside, load32_inside, memcpy_inside}
use message_bus_all_in_one_f.Memory.Yields.{Yields, Yields-bind, Yields-if, Yields-elim}
use message_bus_all_in_one_f.Memory.Tail.{Used, no_head, no_content, returned, le_of_false, further}
use message_bus_all_in_one_f.Filter.{Filters}
use message_bus_all_in_one_f.Receiver.{
  Receiver, receive_one, prefix_size, add_read, receive_loop, receiver_on_read,
}

abbrev LoopUsed : List ℕ → Receiver × ℕ → Type 0
LoopUsed pdata q = Used prefix_size 5 pdata q.1

-- A whole message, and the loop on what follows it.
one_round :
    (filters : Filters) (fd fuel : ℕ) (s : Receiver) (pdata : List ℕ) (sid n : ℕ)
    → length pdata < suc fuel
    → prefix_size + n ≤ length pdata
    → ((s' : Receiver) (tail : List ℕ)
        → length tail < fuel
        → Yields (LoopUsed tail) (receive_loop fuel filters fd s' tail))
    → Yields (LoopUsed pdata) (
        memcpy n (drop prefix_size pdata) >>= λ content.
        receive_loop fuel filters fd
          (receive_one filters fd s content sid)
          (drop n (drop prefix_size pdata))
        >>= λ rest. done (add_read (prefix_size + n) rest))
one_round filters fd fuel s pdata sid n h whole loop =
    Yields-bind (λ content. memcpy n (drop prefix_size pdata) ≡ done content) (LoopUsed pdata)
      (memcpy n (drop prefix_size pdata)) _
      (returned
        (memcpy_inside n (drop prefix_size pdata) (omega (arith, length-drop prefix_size pdata))))
      (λ content e.
        Yields-bind (LoopUsed (drop n (drop prefix_size pdata))) (LoopUsed pdata)
          (receive_loop fuel filters fd (receive_one filters fd s content sid)
            (drop n (drop prefix_size pdata)))
          _
          (loop (receive_one filters fd s content sid) (drop n (drop prefix_size pdata))
            (omega (arith, length-drop n (drop prefix_size pdata), length-drop prefix_size pdata)))
          (λ q u. further prefix_size 5 pdata n q.1 whole u))

receive_loop-LoopUsed :
    (filters : Filters) (fd fuel : ℕ) (s : Receiver) (pdata : List ℕ)
    → length pdata < fuel
    → Yields (LoopUsed pdata) (receive_loop fuel filters fd s pdata)
unfolding receive_loop
receive_loop-LoopUsed filters fd zero s pdata h = absurd (omega arith)
receive_loop-LoopUsed filters fd (suc fuel) s pdata h =
    Yields-if (LoopUsed pdata) (ltb (length pdata) prefix_size) _ _
      (λ short. (omega arith, no_head (ltb→lt (length pdata) prefix_size short)))
      (λ headed.
        let room = le_of_false (length pdata) prefix_size headed in
        Yields-bind (λ sync. load8 pdata ≡ done sync) (LoopUsed pdata) (load8 pdata) _
          (returned (load8_inside pdata (omega (arith, room))))
          (λ sync e₀.
            Yields-bind (λ sid. load32 (drop 1 pdata) ≡ done sid) (LoopUsed pdata)
              (load32 (drop 1 pdata)) _
              (returned (load32_inside (drop 1 pdata) (omega (arith, room, length-drop 1 pdata))))
              (λ sid e.
                Yields-bind (λ n. load32 (drop 5 pdata) ≡ done n) (LoopUsed pdata)
                  (load32 (drop 5 pdata)) _
                  (returned
                    (load32_inside (drop 5 pdata) (omega (arith, room, length-drop 5 pdata))))
                  (λ n e'.
                    Yields-if (LoopUsed pdata) (ltb (length pdata) (prefix_size + ntohl n)) _ _
                      (λ short. (
                        omega arith,
                        no_content n e' (ltb→lt (length pdata) (prefix_size + ntohl n) short),
                      ))
                      (λ whole.
                        one_round filters fd fuel s pdata (ntohl sid) (ntohl n) h
                          (le_of_false (length pdata) (prefix_size + ntohl n) whole)
                          (λ s' tail. receive_loop-LoopUsed filters fd fuel s' tail))))))

-- Whatever another client sends, receiver_onRead returns and reads nothing behind the bytes: it uses
-- up no more than there are, and what it leaves is shorter than the next message, so that the rounds
-- that the loop is given are enough.
pub receiver_on_read_total :
    (filters : Filters) (fd : ℕ) (r : Receiver) (pdata : List ℕ)
    → (q : Receiver × ℕ) × (receiver_on_read filters fd r pdata ≡ done q)
      × Used prefix_size 5 pdata q.1
unfolding receiver_on_read
receiver_on_read_total filters fd r pdata =
    Yields-elim (LoopUsed pdata) (receiver_on_read filters fd r pdata)
      (receive_loop-LoopUsed filters fd (suc (length pdata)) r pdata (omega arith))
