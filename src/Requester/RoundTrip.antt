-- ===== src/Requester/RoundTrip.antt =====
-- A synchronous message from one client to another and back.
use mathlib.Core.List.{append-nil}
use message_bus_all_in_one_f.Common.{
  ℕ, zero, suc, ◌+◌, ◌≤◌, ◌<◌, ◌^◌, ◌≡◌, ◌≢◌, refl, sym, ap, ◌∙◌, subst, ==_refl, inl, inr,
  Option-cases, true, false, Option, none, some, List, [], ◌∷◌, ◌++◌, length, length-append, take,
  get_elem?, ◌==◌, arith,
}
use message_bus_all_in_one_f.Memory.{done}
use message_bus_all_in_one_f.Table.{nat_key, lookup, erase, lookup-erase}
use message_bus_all_in_one_f.Filter.{Filters, filter_by_sender, filter_by_msgid}
use message_bus_all_in_one_f.Content.{
  MsgBusParam, generate_net_msg_content, get_msg_sender, get_msg_id, get_msg_param,
}
use message_bus_all_in_one_f.Content.RoundTrip.{cut, generate-readers}
use message_bus_all_in_one_f.Future.{NetFuture, FutureMgr, set_result}
use message_bus_all_in_one_f.Future.Manager.{get_erased}
use message_bus_all_in_one_f.Receiver.{
  Receiver, check_msg_sender, queue_content, receive_one, receiver_on_read,
}
use message_bus_all_in_one_f.Receiver.Stream.{packets, prefixed, receiver_on_read_lem}
use message_bus_all_in_one_f.Receiver.Reply.{check_msg_id, rsp_send_msg}
use message_bus_all_in_one_f.Requester.State.{ReqTask, Requester}
use message_bus_all_in_one_f.Requester.Write.{write_data}
use message_bus_all_in_one_f.Requester.Answers.{
  set_future, complete, give_content, take_answer, req2receiver_on_read,
}
use message_bus_all_in_one_f.Requester.Received.{IsTask, packet_of, write_data-packet}
use message_bus_all_in_one_f.Requester.Completes.{
  Answer, answers, headed, req2receiver_on_read_lem, write_answer-headed,
}

get_elem?-set_future :
    (place : ℕ) (f g : NetFuture) (gs : List NetFuture)
    → get_elem? gs place ≡ some g
    → get_elem? (set_future place f gs) place ≡ some f
unfolding set_future
get_elem?-set_future place f g [] e = absurd cc
get_elem?-set_future zero f g (h ∷ gs) e = refl
get_elem?-set_future (suc place) f g (h ∷ gs) e = get_elem?-set_future place f g gs e

-- The future of an id that comes back.
pub record Completed (m : FutureMgr) (sid place : ℕ) (f : NetFuture) (content : List ℕ)
    (m' : FutureMgr) : Type 0 where
  pub result : get_elem? m'.futures place ≡ some (record f { rsp_content = content; ready = true })
  pub gone : lookup sid m'.container ≡ none
  pub others : (id : ℕ) → id ≢ sid → lookup id m'.container ≡ lookup id m.container

-- The manager after it.
completed : FutureMgr → ℕ → ℕ → NetFuture → List ℕ → FutureMgr
completed m sid place f content = record m {
  container = erase sid m.container;
  futures = set_future place (record f { rsp_content = content; ready = true }) m.futures;
}

take_answer_known :
    (m : FutureMgr) (called : List ℕ) (sid place : ℕ) (f : NetFuture) (content : List ℕ)
    → lookup sid m.container ≡ some place
    → get_elem? m.futures place ≡ some f
    → (take_answer (m, called) sid content).0 ≡ completed m sid place f content
unfolding take_answer give_content complete set_result completed
take_answer_known m called sid place f content known there =
    rw (get_erased m sid place known) (rw (there, complete) refl)

completed-Completed :
    (m : FutureMgr) (sid place : ℕ) (f : NetFuture) (content : List ℕ)
    → get_elem? m.futures place ≡ some f
    → Completed m sid place f content (completed m sid place f content)
unfolding completed
completed-Completed m sid place f content there = record {
  result = get_elem?-set_future place _ f m.futures there;
  gone = rw (lookup-erase sid sid m.container, ==_refl sid) refl;
  others = λ id ne. lookup-erase sid id m.container ∙ ground arith;
}

-- An answer completes the future of its id, and takes the id out of the manager.
pub take_answer-Completed :
    (m : FutureMgr) (called : List ℕ) (sid place : ℕ) (f : NetFuture) (content : List ℕ)
    → lookup sid m.container ≡ some place
    → get_elem? m.futures place ≡ some f
    → Completed m sid place f content (take_answer (m, called) sid content).0
take_answer-Completed m called sid place f content known there =
    subst (Completed m sid place f content)
      (sym (take_answer_known m called sid place f content known there))
      (completed-Completed m sid place f content there)

-- The receiver queues the content with its id, whether or not it knows the sender.
receives :
    (filters : Filters) (fd sid : ℕ) (rc : Receiver) (content sender : List ℕ)
    → get_msg_sender content ≡ some sender
    → filter_by_sender filters sender ≡ true
    → sid ≢ 0
    → (receive_one filters fd rc content sid).queued ≡ rc.queued ++ ((content, sid) ∷ [])
unfolding receive_one check_msg_sender queue_content
receives filters fd sid rc content sender from allowed named =
    elim (Option-cases (lookup fd rc.client_senders)) [
      | inl new ↦
          rw (new, receive_one)
            (rw (from, check_msg_sender) (rw (allowed, not_zero sid named) refl))
      | inr (name, old) ↦ rw (old, receive_one) (rw (not_zero sid named) refl)
    ]
  where
    not_zero : (n : ℕ) → n ≢ 0 → (n == 0) ≡ false
    not_zero n h = ground arith

replies :
    (filters : Filters) (bus : List ℕ → List ℕ → Option (List ℕ))
    (content id contents reply : List ℕ) (sid : ℕ)
    → get_msg_id content ≡ some id
    → filter_by_msgid filters id ≡ true
    → get_msg_param content ≡ done (some contents)
    → bus id contents ≡ some reply
    → 4 + 4 + length reply < 2 ^ 32
    → rsp_send_msg filters bus content sid
      ≡ done (some (answers (record { sid = sid; content = reply } ∷ []) []))
unfolding rsp_send_msg check_msg_id
replies filters bus content id contents reply sid named allowed param answered fits =
    rw (named, rsp_send_msg, check_msg_id)
      (rw allowed (
        rw param (
          rw answered (
            rw (write_answer-headed sid reply fits)
              (ap (λ xs. done (some (headed sid (length reply) xs))) (sym (append-nil reply)))))))

-- The way of a synchronous message with a content.
pub record Way (filters : Filters) (bus : List ℕ → List ℕ → Option (List ℕ)) (fd : ℕ)
    (r : Requester) (rc : Receiver) (task : ReqTask) (place : ℕ) (f : NetFuture) (reply : List ℕ)
    : Type 0 where
  pub sent : List ℕ
  pub writes : write_data task ≡ done sent
  pub received : Receiver × ℕ
  pub reads : receiver_on_read filters fd rc sent ≡ done received
  pub all_read : received.1 ≡ length sent
  pub queues : received.0.queued ≡ rc.queued ++ ((task.contents, task.future_id) ∷ [])
  pub answer : List ℕ
  pub rsp : rsp_send_msg filters bus task.contents task.future_id ≡ done (some answer)
  pub after : Requester × List ℕ × ℕ
  pub completes : req2receiver_on_read r answer ≡ done after
  pub all_answered : after.2 ≡ length answer
  pub result : Completed r.future_mgr task.future_id place f reply after.0.future_mgr

-- The task of a synchronous message.
abbrev pub sync_task : MsgBusParam → ℕ → ReqTask
sync_task content sid = record {
  clientname = [];
  sync = true;
  future_id = sid;
  retry = false;
  data_len = content.paramlen;
  contents = content.paramdata;
  dest_client = ([], 0);
}

-- A message with id and sender that the filters of the receiver let through, whose parameter is not
-- too long, sent under the id of a waiting future: the receiver queues its content with that id,
-- whether or not it knows the sender; what the local bus makes of the parameter is written back with
-- the id; and the sender's future has it as its result, under an id that is no longer known, while
-- all other ids keep their futures.
pub sync_round_trip :
    (filters : Filters) (bus : List ℕ → List ℕ → Option (List ℕ)) (fd : ℕ) (r : Requester)
    (rc : Receiver) (msgid msgsender : List ℕ) (param : MsgBusParam) (sid place : ℕ) (f : NetFuture)
    (reply : List ℕ)
    → param.paramlen ≤ length param.paramdata
    → 1 + 4 + 4 + (1 + 255 + 1 + 255 + 4 + param.paramlen) < 2 ^ 32
    → filter_by_sender filters (cut msgsender) ≡ true
    → filter_by_msgid filters (cut msgid) ≡ true
    → bus (cut msgid) (take param.paramlen param.paramdata) ≡ some reply
    → 4 + 4 + length reply < 2 ^ 32
    → sid < 2 ^ 32
    → sid ≢ 0
    → lookup sid r.future_mgr.container ≡ some place
    → get_elem? r.future_mgr.futures place ≡ some f
    → (content : MsgBusParam) × (generate_net_msg_content msgid param msgsender ≡ done content)
      × Way filters bus fd r rc (sync_task content sid) place f reply
sync_round_trip filters bus fd r rc msgid msgsender param sid place f reply full small from_ok id_ok
      answered short sid_fits named known there =
    let (content, gen, whole, from, id, par, size) =
      generate-readers msgid msgsender param full (omega arith) in
    let task = sync_task content sid in
    let good : IsTask task = record {
      whole = whole;
      fits = omega (arith, whole, size);
      id_fits = sid_fits;
    } in
    let a : Answer = record { sid = sid; content = reply } in
    (
      content,
      gen,
      record {
        sent = packets (packet_of task ∷ []) [];
        writes =
            write_data-packet task good
            ∙ ap (λ xs. done (prefixed 1 sid (length content.paramdata) xs))
                (sym (append-nil content.paramdata));
        received = _;
        reads =
            receiver_on_read_lem filters fd rc (packet_of task ∷ []) []
              (record { sid_fits = sid_fits; len_fits = omega (arith, whole, size) }, tt)
              (inl (omega arith));
        all_read = omega (arith, length-append content.paramdata []);
        queues = receives filters fd sid rc content.paramdata (cut msgsender) from from_ok named;
        answer = answers (a ∷ []) [];
        rsp =
            replies filters bus content.paramdata (cut msgid) _ reply sid id id_ok par answered
              short;
        after = _;
        completes =
            req2receiver_on_read_lem r (a ∷ []) []
              (record { sid_fits = sid_fits; len_fits = omega arith }, tt) (inl (omega arith));
        all_answered = omega (arith, length-append reply []);
        result = take_answer-Completed r.future_mgr [] sid place f reply known there;
      },
    )
