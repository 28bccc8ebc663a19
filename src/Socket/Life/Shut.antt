-- ===== src/Socket/Life/Shut.antt =====
-- A socket that has stopped taking data takes none until it is connected anew.
use message_bus_all_in_one_f.Memory.Yields.{false-true, Yields, Yields-if, Yields-bind, Yields-elim}
use message_bus_all_in_one_f.Common.{
  ℕ, Bool, false, not, ◌≡◌, refl, sym, ◌∙◌, Bool-cases, inl, inr, List, [], ◌∷◌, length, ltb,
}
use message_bus_all_in_one_f.Memory.{Outcome, done, ◌>>=◌}
use message_bus_all_in_one_f.Socket.State.{
  can_send, is_closed, Thread, write_loop, WriteTask, send, shut_down, World, epipe,
}
use message_bus_all_in_one_f.Socket.Send.{WriteResult, send_data}
use message_bus_all_in_one_f.Socket.Flow.{Valid, Flow, is_open, Flow-refl}
use message_bus_all_in_one_f.Socket.Flow.Events.{
  shut_down_write_flow, add_tcp_sock_flow, dis_allow_send_flow, close_flow,
}
use message_bus_all_in_one_f.Socket.Flow.Sending.{send_in_loop_lost}
use message_bus_all_in_one_f.Socket.Flow.Reading.{handle_event_flow}
use message_bus_all_in_one_f.Socket.Life.{
  Step, join, set_handler, give, refuse, shut, ready, handle, run_write, run_loop, Life,
  run_write_task, go_on, step, run, set_sock_handler, set_current_event,
}
use message_bus_all_in_one_f.Socket.Life.Order.{run_loop_task_flow, not_open}

-- A valid socket that takes no data, and has been given `given`.
pub record Shut (given : List ℕ) (l : Life) : Type 0 where
  pub valid : Valid l.world
  pub refuses : is_open l.world.sock ≡ false
  pub same : l.given ≡ given

stays_shut : (w w' : World) → is_open w.sock ≡ false → Flow w w' → is_open w'.sock ≡ false
stays_shut w w' h f = elim (Bool-cases (is_open w'.sock)) [
  | inl e ↦ absurd (false-true (sym h ∙ f.open_before e))
  | inr e ↦ e
]

Flow-Shut : (g : List ℕ) (l : Life) (w : World) → Shut g l → Flow l.world w → Shut g (go_on l w)
Flow-Shut g l w s f = record {
  valid = f.valid;
  refuses = stays_shut l.world w s.refuses f;
  same = s.same;
}

flowing :
    (g : List ℕ) (l : Life) (m : Outcome World)
    → Shut g l
    → Yields (Flow l.world) m
    → Yields (Shut g) (m >>= λ w. done (go_on l w))
flowing g l m s f =
    Yields-bind (Flow l.world) (Shut g) m (λ w. done (go_on l w)) f (λ w k. Flow-Shut g l w s k)

without :
    (g : List ℕ) (l : Life) (ts : List WriteTask)
    → Shut g l
    → Shut g (go_on l (record l.world { write_tasks = ts }))
without g l ts s = record {
  valid = record {
    in_valid = s.valid.in_valid;
    out_valid = s.valid.out_valid;
    release = s.valid.release;
  };
  refuses = s.refuses;
  same = s.same;
}

run_write_task-Shut :
    (g : List ℕ) (l : Life) (ts : List WriteTask) (rs : List WriteResult)
    → Shut g l
    → Yields (Shut g) (run_write_task ts rs l.world >>= λ w. done (go_on l w))
unfolding run_write_task
run_write_task-Shut g l [] rs s = Flow-Shut g l l.world s (Flow-refl s.valid)
run_write_task-Shut g l (shut_down ∷ ts) rs s =
    let s' = without g l ts s in
    Flow-Shut g (go_on l (record l.world { write_tasks = ts })) _ s'
      (shut_down_write_flow write_loop _ s'.valid)
run_write_task-Shut g l (send bytes ∷ ts) rs s =
    let s' = without g l ts s in
    flowing g (go_on l (record l.world { write_tasks = ts })) _ s'
      (send_in_loop_lost write_loop bytes rs _ s'.valid (not_open l.world.sock s.refuses))

-- SendData of any thread answers false.
send_data-Shut :
    (t : Thread) (bytes : List ℕ) (rs : List WriteResult) (g : List ℕ) (l : Life)
    → Shut g l
    → Yields
        (λ (r : World × Bool). Shut g (go_on l r.0) × (r.1 ≡ false))
        (send_data t bytes rs l.world)
unfolding send_data is_open can_send is_closed
send_data-Shut t bytes rs g l s =
    Yields-if P (not (ltb 0 (length bytes))) (done (l.world, false)) _ (λ a. (s, refl))
      (λ a. rw (not_open l.world.sock s.refuses) (errno_shut, refl))
  where
    P : World × Bool → Type 0
    P r = Shut g (go_on l r.0) × (r.1 ≡ false)

    errno_shut :
        Shut g (go_on l (record l.world { sock = record l.world.sock { last_errno = epipe } }))
    errno_shut = record {
      valid = record {
        in_valid = s.valid.in_valid;
        out_valid = s.valid.out_valid;
        release = s.valid.release;
      };
      refuses = s.refuses;
      same = s.same;
    }

unchanged :
    (g : List ℕ) (l : Life) (w : World)
    → Shut g l
    → w.sock.inbuf ≡ l.world.sock.inbuf
    → w.sock.outbuf ≡ l.world.sock.outbuf
    → w.debug ≡ l.world.debug
    → is_open w.sock ≡ is_open l.world.sock
    → Shut g (go_on l w)
unchanged g l w s i o d e = record {
  valid = record {
    in_valid = rw i s.valid.in_valid;
    out_valid = rw o s.valid.out_valid;
    release = d ∙ s.valid.release;
  };
  refuses = e ∙ s.refuses;
  same = s.same;
}

step-Shut : (s : Step) (g : List ℕ) (l : Life) → Shut g l → Yields (Shut g) (step s l)
unfolding step is_open can_send is_closed set_sock_handler set_current_event
step-Shut (join t) g l h = flowing g l _ h (add_tcp_sock_flow t l.world h.valid)
step-Shut (set_handler cb) g l h = unchanged g l _ h refl refl refl refl
step-Shut (give t bytes rs) g l h =
    Yields-bind (λ r. Shut g (go_on l r.0) × (r.1 ≡ false)) (Shut g) (send_data t bytes rs l.world)
      _ (send_data-Shut t bytes rs g l h)
      (λ r p. record { valid = p.0.valid; refuses = p.0.refuses; same = rw p.1 p.0.same })
step-Shut (refuse t) g l h = flowing g l _ h (dis_allow_send_flow t l.world h.valid)
step-Shut (shut t b) g l h = flowing g l _ h (close_flow t b l.world h.valid)
step-Shut (ready ev) g l h = unchanged g l _ h refl refl refl refl
step-Shut (handle t reads writes e) g l h =
    flowing g l _ h (handle_event_flow t reads writes e l.world h.valid)
step-Shut (run_write rs) g l h = run_write_task-Shut g l l.world.write_tasks rs h
step-Shut run_loop g l h = flowing g l _ h (run_loop_task_flow l.world.loop_tasks l.world h.valid)

all_Shut : (ss : List Step) (g : List ℕ) (l : Life) → Shut g l → Yields (Shut g) (run ss l)
unfolding run
all_Shut [] g l s = s
all_Shut (x ∷ xs) g l s =
    Yields-bind (Shut g) (Shut g) (step x l) (run xs) (step-Shut x g l s)
      (λ l₂ s₂. all_Shut xs g l₂ s₂)

-- A socket refuses data where it is closed, or its sending side is shut down or is to be shut down. In
-- a release build, with valid buffers, and for any sequence of the threads' calls and the loops' tasks
-- in which the socket is not connected anew, since Connect is not among the steps: nothing fails,
-- every SendData of any thread answers false, and the socket still refuses at the end.
pub run_shut :
    (ss : List Step) (l : Life)
    → Valid l.world
    → is_open l.world.sock ≡ false
    → (l' : Life) × (run ss l ≡ done l') × (is_open l'.world.sock ≡ false) × (l'.given ≡ l.given)
run_shut ss l v h =
    let (l', e, s) =
      Yields-elim (Shut l.given) (run ss l)
        (all_Shut ss l.given l (record { valid = v; refuses = h; same = refl })) in
    (l', e, s.refuses, s.same)
