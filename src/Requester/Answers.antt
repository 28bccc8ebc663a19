-- ===== src/Requester/Answers.antt =====
-- Req2Receiver_onRead with its future ids, and the end of a connection.
use message_bus_all_in_one_f.Common.{
  ℕ, zero, suc, ◌+◌, Bool, true, Option, none, some, List, [], ◌∷◌, ◌++◌, length, drop, ltb,
  get_elem?, if◌then◌else◌,
}
use message_bus_all_in_one_f.Memory.{Outcome, done, ◌>>=◌, load32, ntohl, memcpy}
use message_bus_all_in_one_f.Future.{
  NetFuture, FutureMgr, set_result, safe_get_future, safe_clear_bad_future,
}
use message_bus_all_in_one_f.ClientPool.{PoolSock, remove_tcp_sock}
use message_bus_all_in_one_f.Requester.State.{Requester}

-- The futures with one of them changed.
unfoldable pub set_future : ℕ → NetFuture → List NetFuture → List NetFuture
set_future place f [] = []
set_future zero f (g ∷ gs) = f ∷ gs
set_future (suc place) f (g ∷ gs) = g ∷ set_future place f gs

-- The futures, and the places of those whose callback was called.
abbrev pub Results : Type 0
Results = FutureMgr × List ℕ

-- set_result on the future at a place.
unfoldable pub complete : ℕ → List ℕ → Results → Results
complete place content (m, called) = elim (get_elem? m.futures place) [
  | none ↦ (m, called)
  | some f ↦ (
    record m { futures = set_future place (set_result f content).0 m.futures },
    if (set_result f content).1 then called ++ (place ∷ []) else called,
  )
]

-- What safe_get_future found gets the content.
unfoldable pub give_content : FutureMgr × Option ℕ → List ℕ → List ℕ → Results
give_content (m, none) called content = (m, called)
give_content (m, some place) called content = complete place content (m, called)

-- One answer: the future leaves the manager, and gets the content.
unfoldable pub take_answer : Results → ℕ → List ℕ → Results
take_answer (m, called) sid content = give_content (safe_get_future m sid true) called content

-- The bytes before the content.
abbrev pub answer_prefix : ℕ
answer_prefix = 4 + 4

abbrev pub add_answer : ℕ → Results × ℕ → Results × ℕ
add_answer needlen (s, readedlen) = (s, needlen + readedlen)

-- The loop of Req2Receiver_onRead, for at most `fuel` rounds.
unfoldable pub answer_loop : ℕ → Results → List ℕ → Outcome (Results × ℕ)
answer_loop zero s pdata = done (s, 0)
answer_loop (suc fuel) s pdata =
    let next = λ (sid : ℕ) (data_len : ℕ) (content : List ℕ).
      (answer_loop fuel (take_answer s sid content) (drop data_len (drop answer_prefix pdata))
        >>= λ rest. done (add_answer (answer_prefix + data_len) rest)) in
    if ltb (length pdata) answer_prefix then done (s, 0) else (do
      sid ← load32 pdata
      data_len ← load32 (drop 4 pdata)
      if ltb (length pdata) (answer_prefix + ntohl data_len) then done (s, 0) else (do
        content ← memcpy (ntohl data_len) (drop answer_prefix pdata)
        next (ntohl sid) (ntohl data_len) content))

-- Req2Receiver_onRead; every round takes eight bytes at least.
unfoldable pub req2receiver_on_read : Requester → List ℕ → Outcome (Requester × List ℕ × ℕ)
req2receiver_on_read r pdata = do
  (s, readedlen) ← answer_loop (suc (length pdata)) (r.future_mgr, []) pdata
  done (record r { future_mgr = s.0 }, s.1, readedlen)

-- Req2Receiver_onClose, and Req2Receiver_onError after its message to the log.
unfoldable pub req2receiver_on_close : (ℕ → Bool) → ℕ → Requester → PoolSock → Requester
req2receiver_on_close closed now r s = record r {
  sendmsg_pool = remove_tcp_sock closed r.sendmsg_pool (some s);
  postmsg_pool = remove_tcp_sock closed r.postmsg_pool (some s);
  future_mgr = safe_clear_bad_future r.future_mgr now;
}
