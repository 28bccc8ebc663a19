-- ===== src/Requester/Completes.antt =====
-- Req2Receiver_onRead on the answers that the receivers write.
use message_bus_all_in_one_f.Common.{
  ℕ, zero, suc, ◌+◌, ◌≤◌, ◌<◌, ◌^◌, ◌%◌, ◌≡◌, ◌⊎◌, inl, inr, refl, ap, ◌∙◌, sym, false, List, [],
  ◌∷◌, ◌++◌, length, length-append, drop-append, ltb, arith, All, le→ltb_false, lt→ltb,
}
use mathlib.Core.List.{append-nil}
use message_bus_all_in_one_f.Memory.{done, ◌>>=◌, store32, htonl, memcpy}
use message_bus_all_in_one_f.Memory.Copy.{memcpy-append}
use message_bus_all_in_one_f.Memory.Words.{net32, htonl-htonl}
use message_bus_all_in_one_f.Receiver.Reply.{write_answer}
use message_bus_all_in_one_f.Requester.State.{Requester}
use message_bus_all_in_one_f.Requester.Answers.{
  Results, take_answer, answer_prefix, add_answer, answer_loop, req2receiver_on_read,
}

-- An answer to the message with an id.
pub record Answer : Type 0 where
  pub sid : ℕ
  pub content : List ℕ

pub record IsAnswer (a : Answer) : Type 0 where
  pub sid_fits : a.sid < 2 ^ 32
  pub len_fits : length a.content < 2 ^ 32

abbrev pub headed : ℕ → ℕ → List ℕ → List ℕ
headed sid n rest = store32 (htonl sid) ++ (store32 (htonl n) ++ rest)

abbrev pub answers : List Answer → List ℕ → List ℕ
answers [] tail = tail
answers (a ∷ rs) tail = headed a.sid (length a.content) (a.content ++ answers rs tail)

abbrev pub answers_size : List Answer → ℕ
answers_size [] = 0
answers_size (a ∷ rs) = (answer_prefix + length a.content) + answers_size rs

-- The answers one after the other.
abbrev pub take_all : Results → List Answer → Results
take_all s [] = s
take_all s (a ∷ rs) = take_all (take_answer s a.sid a.content) rs

-- The beginning of an answer that has not come in as a whole.
abbrev pub IsCut : List ℕ → Type 0
IsCut tail =
    (length tail < answer_prefix)
    ⊎ ((sid n : ℕ) × (rest : List ℕ) × (tail ≡ headed sid n rest)
        × (n < 2 ^ 32)
        × (length rest < n))

loop_answer :
    (fuel : ℕ) (s : Results) (a : Answer) (rest : List ℕ)
    → IsAnswer a
    → answer_loop (suc fuel) s (headed a.sid (length a.content) (a.content ++ rest)) ≡ (
        answer_loop fuel (take_answer s a.sid a.content) rest >>= λ x.
        done (add_answer (answer_prefix + length a.content) x))
unfolding answer_loop
loop_answer fuel s a rest v =
    rw
      (
        enough_prefix,
        net32 a.sid (store32 (htonl n) ++ (a.content ++ rest)),
        net32 n (a.content ++ rest),
        htonl-htonl a.sid v.sid_fits,
        htonl-htonl n v.len_fits,
        enough_content,
      )
      (rw (memcpy-append a.content rest, drop-append a.content rest) refl)
  where
    n : ℕ
    n = length a.content

    all : List ℕ
    all = headed a.sid n (a.content ++ rest)

    enough_prefix : ltb (length all) answer_prefix ≡ false
    enough_prefix = le→ltb_false (length all) answer_prefix (omega arith)

    enough_content : ltb (length all) (answer_prefix + n) ≡ false
    enough_content =
        le→ltb_false (length all) (answer_prefix + n) (omega (arith, length-append a.content rest))

loop_part :
    (fuel : ℕ) (s : Results) (sid n : ℕ) (rest : List ℕ)
    → n < 2 ^ 32
    → length rest < n
    → answer_loop (suc fuel) s (headed sid n rest) ≡ done (s, 0)
unfolding answer_loop
loop_part fuel s sid n rest fits short =
    rw
      (
        le→ltb_false (length all) answer_prefix (omega arith),
        net32 sid (store32 (htonl n) ++ rest),
        net32 n rest,
        htonl-htonl n fits,
        lt→ltb (length all) (answer_prefix + n) (omega arith),
      )
      refl
  where
    all : List ℕ
    all = headed sid n rest

loop_cut :
    (fuel : ℕ) (s : Results) (tail : List ℕ)
    → IsCut tail
    → answer_loop (suc fuel) s tail ≡ done (s, 0)
unfolding answer_loop
loop_cut fuel s tail (inl short) = rw (lt→ltb (length tail) answer_prefix short) refl
loop_cut fuel s tail (inr (sid, n, rest, e, fits, short)) =
    ap (answer_loop (suc fuel) s) e ∙ loop_part fuel s sid n rest fits short

answer_loop-answers :
    (fuel : ℕ) (s : Results) (rs : List Answer) (tail : List ℕ)
    → length rs < fuel
    → All IsAnswer rs
    → IsCut tail
    → answer_loop fuel s (answers rs tail) ≡ done (take_all s rs, answers_size rs)
answer_loop-answers zero s rs tail h good part = absurd (omega arith)
answer_loop-answers (suc fuel) s [] tail h good part = loop_cut fuel s tail part
answer_loop-answers (suc fuel) s (a ∷ rs) tail h good part =
    loop_answer fuel s a (answers rs tail) good.0
    ∙ rw
        (answer_loop-answers fuel (take_answer s a.sid a.content) rs tail (omega arith) good.1 part)
        refl

length-answers : (rs : List Answer) (tail : List ℕ) → length rs ≤ length (answers rs tail)
length-answers [] tail = omega arith
length-answers (a ∷ rs) tail =
    omega (arith, length-append a.content (answers rs tail), length-answers rs tail)

-- Whole answers with ids and lengths of 32 bits, and then the beginning of one at most: each is given
-- to the future of its id in its order, and exactly their bytes are used up.
pub req2receiver_on_read_lem :
    (r : Requester) (rs : List Answer) (tail : List ℕ)
    → All IsAnswer rs
    → IsCut tail
    → let s = take_all (r.future_mgr, []) rs in
      req2receiver_on_read r (answers rs tail)
      ≡ done (record r { future_mgr = s.0 }, s.1, answers_size rs)
unfolding req2receiver_on_read
req2receiver_on_read_lem r rs tail good part =
    rw
      (answer_loop-answers (suc (length (answers rs tail))) (r.future_mgr, []) rs tail
        (omega (arith, length-answers rs tail)) good part)
      refl

-- What NetMsgBusRspSendMsg writes is an answer.
pub write_answer-headed :
    (sid : ℕ) (xs : List ℕ)
    → 4 + 4 + length xs < 2 ^ 32
    → write_answer sid (length xs) xs ≡ done (headed sid (length xs) xs)
unfolding write_answer
write_answer-headed sid xs h =
    rw (no_wrap, ap (memcpy (length xs)) (sym (append-nil xs)) ∙ memcpy-append xs []) refl
  where
    no_wrap : ltb ((4 + 4 + length xs) % 2 ^ 32) (4 + 4 + length xs) ≡ false
    no_wrap = le→ltb_false ((4 + 4 + length xs) % 2 ^ 32) (4 + 4 + length xs) (omega arith)
