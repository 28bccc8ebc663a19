-- ===== src/Requester/Total.antt =====
-- Req2Receiver_onRead on any bytes.
use message_bus_all_in_one_f.Common.{
  ℕ, zero, suc, ◌+◌, ◌≤◌, ◌<◌, ◌≡◌, List, [], length, length-drop, drop, ltb, arith, ltb→lt,
}
use message_bus_all_in_one_f.Memory.{done, ◌>>=◌, load32, ntohl, memcpy}
use message_bus_all_in_one_f.Memory.Inside.{load32_inside, memcpy_inside}
use message_bus_all_in_one_f.Memory.Yields.{Yields, Yields-bind, Yields-if, Yields-elim}
use message_bus_all_in_one_f.Memory.Tail.{Used, no_head, no_content, returned, le_of_false, further}
use message_bus_all_in_one_f.Requester.State.{Requester}
use message_bus_all_in_one_f.Requester.Answers.{
  Results, take_answer, answer_prefix, add_answer, answer_loop, req2receiver_on_read,
}

abbrev LoopUsed : List ℕ → Results × ℕ → Type 0
LoopUsed pdata q = Used answer_prefix 4 pdata q.1

-- A whole answer, and the loop on what follows it.
one_round :
    (fuel : ℕ) (s : Results) (pdata : List ℕ) (sid n : ℕ)
    → length pdata < suc fuel
    → answer_prefix + n ≤ length pdata
    → ((s' : Results) (tail : List ℕ)
        → length tail < fuel
        → Yields (LoopUsed tail) (answer_loop fuel s' tail))
    → Yields (LoopUsed pdata) (
        memcpy n (drop answer_prefix pdata) >>= λ content.
        answer_loop fuel (take_answer s sid content) (drop n (drop answer_prefix pdata)) >>= λ rest.
        done (add_answer (answer_prefix + n) rest))
one_round fuel s pdata sid n h whole loop =
    Yields-bind (λ content. memcpy n (drop answer_prefix pdata) ≡ done content) (LoopUsed pdata)
      (memcpy n (drop answer_prefix pdata)) _
      (returned (
        memcpy_inside n (drop answer_prefix pdata)
          (omega (arith, length-drop answer_prefix pdata))))
      (λ content e.
        Yields-bind (LoopUsed (drop n (drop answer_prefix pdata))) (LoopUsed pdata)
          (answer_loop fuel (take_answer s sid content) (drop n (drop answer_prefix pdata))) _
          (loop (take_answer s sid content) (drop n (drop answer_prefix pdata)) (
            omega
              (arith, length-drop n (drop answer_prefix pdata), length-drop answer_prefix pdata)))
          (λ q u. further answer_prefix 4 pdata n q.1 whole u))

answer_loop-LoopUsed :
    (fuel : ℕ) (s : Results) (pdata : List ℕ)
    → length pdata < fuel
    → Yields (LoopUsed pdata) (answer_loop fuel s pdata)
unfolding answer_loop
answer_loop-LoopUsed zero s pdata h = absurd (omega arith)
answer_loop-LoopUsed (suc fuel) s pdata h =
    Yields-if (LoopUsed pdata) (ltb (length pdata) answer_prefix) _ _
      (λ short. (omega arith, no_head (ltb→lt (length pdata) answer_prefix short)))
      (λ headed.
        let room = le_of_false (length pdata) answer_prefix headed in
        Yields-bind (λ sid. load32 pdata ≡ done sid) (LoopUsed pdata) (load32 pdata) _
          (returned (load32_inside pdata (omega (arith, room))))
          (λ sid e.
            Yields-bind (λ n. load32 (drop 4 pdata) ≡ done n) (LoopUsed pdata)
              (load32 (drop 4 pdata)) _
              (returned (load32_inside (drop 4 pdata) (omega (arith, room, length-drop 4 pdata))))
              (λ n e'.
                Yields-if (LoopUsed pdata) (ltb (length pdata) (answer_prefix + ntohl n)) _ _
                  (λ short. (
                    omega arith,
                    no_content n e' (ltb→lt (length pdata) (answer_prefix + ntohl n) short),
                  ))
                  (λ whole.
                    one_round fuel s pdata (ntohl sid) (ntohl n) h
                      (le_of_false (length pdata) (answer_prefix + ntohl n) whole)
                      (λ s' tail. answer_loop-LoopUsed fuel s' tail)))))

-- Whatever the other side sends, Req2Receiver_onRead returns and reads nothing behind the bytes: it
-- uses up no more than there are, and what it leaves is shorter than the next answer, so that the
-- rounds that the loop is given are enough.
pub req2receiver_on_read_total :
    (r : Requester) (pdata : List ℕ)
    → (q : Requester × List ℕ × ℕ) × (req2receiver_on_read r pdata ≡ done q)
      × Used answer_prefix 4 pdata q.2
unfolding req2receiver_on_read
req2receiver_on_read_total r pdata =
    Yields-elim (λ (q : Requester × List ℕ × ℕ). Used answer_prefix 4 pdata q.2)
      (req2receiver_on_read r pdata)
      (Yields-bind (LoopUsed pdata) (λ (q : Requester × List ℕ × ℕ). Used answer_prefix 4 pdata q.2)
        (answer_loop (suc (length pdata)) (r.future_mgr, []) pdata) _
        (answer_loop-LoopUsed (suc (length pdata)) (r.future_mgr, []) pdata (omega arith))
        (λ q u. u))
