-- ===== src/Socket/Send.antt =====
-- The sending side of Core/TcpSock.cpp: DoSend, SendDataInLoop and SendData. What `write` answers is
-- a list of results, so a loop that writes until the system takes no more is a recursion on it.
use message_bus_all_in_one_f.Common.{
  ℕ, Bool, true, false, not, ◌&&◌, ◌||◌, List, [], ◌∷◌, ◌++◌, length, take, ltb, ◌==◌,
  if◌then◌else◌,
}
use message_bus_all_in_one_f.Memory.{Outcome, done, ◌>>=◌}
use message_bus_all_in_one_f.FastBuffer.{is_empty, push_back, pop_front}
use message_bus_all_in_one_f.FastBuffer.Room.{content}
use message_bus_all_in_one_f.Socket.State.{
  ev_write, epipe, max_buf_size, is_closed, can_send, Thread, in_write_loop, send, sent, failed,
  World, call, call_if,
}
use message_bus_all_in_one_f.Socket.Update.{
  assert_that, queue_task_to_write_loop, add_and_update_event, remove_and_update_event,
  shut_down_write, dis_allow_send, close,
}

-- One answer of `write`: at most `n` bytes are taken from the front, with what onSend answers if it
-- is called then; EAGAIN; EINTR; or another errno. An empty list is EAGAIN from here on.
pub data WriteResult : Type 0 where
  takes : ℕ → Bool → WriteResult
  again : WriteResult
  interrupted : WriteResult
  fails : ℕ → WriteResult

-- The bytes of a `write` that takes at most `n`.
abbrev pub written : ℕ → World → List ℕ
written n w = take n (content w.sock.outbuf)

-- `write` and pop_front.
unfoldable pub take_out : ℕ → World → Outcome World
take_out n w = do
  b ← pop_front w.sock.outbuf (length (written n w))
  done (record w { sock = record w.sock { outbuf = b }; wire = w.wire ++ written n w })

abbrev pub renew_later : World → World
renew_later w = record w { sock = record w.sock { need_renew_timeout = true } }

-- What follows a write that emptied the buffer, with whether the loop goes on: onSend may refuse
-- more data, and a socket that takes none is shut down.
unfoldable pub emptied : Thread → Bool → World → Outcome (World × Bool)
emptied t more w = do
  w₁ ← remove_and_update_event t ev_write w
  w₂ ←
      (if w₁.sock.sockcb.on_send && not more
        then dis_allow_send t (call sent w₁)
        else done (call_if w₁.sock.sockcb.on_send sent w₁))
  done (if w₂.sock.allow_more_send then (renew_later w₂, true) else (shut_down_write t w₂, false))

-- A `write` that fails.
unfoldable pub fail_write : Thread → ℕ → World → Outcome (World × Bool)
fail_write t e w = do
  w₁ ←
      close t true (
        call_if w.sock.sockcb.on_error failed
          (record w { sock = record w.sock { last_errno = e } }))
  done (w₁, false)

-- A `write` that takes something, with whether the loop goes on.
unfoldable pub wrote : Thread → ℕ → Bool → World → Outcome (World × Bool)
wrote t n more w = do
  w₁ ← take_out n w
  if is_empty w₁.sock.outbuf then emptied t more w₁ else done (renew_later w₁, true)

unfoldable pub do_send : Thread → List WriteResult → World → Outcome (World × Bool)
do_send t [] w = done (w, true)
do_send t (again ∷ rs) w = done (w, true)
do_send t (interrupted ∷ rs) w = do_send t rs w
do_send t (fails e ∷ rs) w = fail_write t e w
do_send t (takes n more ∷ rs) w =
    let next = λ (w₁ : World). do_send t rs w₁ in
    if length (written n w) == 0
    then done (w, true)
    else do (w₁, goes_on) ← wrote t n more w; if goes_on then next w₁ else done (w₁, false)

unfoldable pub send_data_in_loop : Thread → List ℕ → List WriteResult → World → Outcome World
send_data_in_loop t pdata rs w = do
  w₀ ← (if w.sock.evloop then assert_that (in_write_loop t) w else done w)
  if is_closed w₀.sock || not (can_send w₀.sock)
      then done (record w₀ { sock = record w₀.sock { last_errno = epipe } })
      else do
        b ← push_back w₀.sock.outbuf pdata
        (w₁, goes_on) ← do_send t rs (record w₀ { sock = record w₀.sock { outbuf = b } })
        if goes_on && not (is_empty w₁.sock.outbuf)
            then add_and_update_event t ev_write w₁
            else done w₁

unfoldable pub send_data : Thread → List ℕ → List WriteResult → World → Outcome (World × Bool)
send_data t pdata rs w =
    if not (ltb 0 (length pdata))
    then done (w, false)
    else if is_closed w.sock || not (can_send w.sock)
    then done (record w { sock = record w.sock { last_errno = epipe } }, false)
    else if w.debug && ltb max_buf_size (length pdata)
    then done (record w { sock = record w.sock { last_errno = 0 } }, false)
    else if not w.sock.evloop
    then done (w, false)
    else if not (in_write_loop t)
    then done (queue_task_to_write_loop (send pdata) w, true)
    else (send_data_in_loop t pdata rs w >>= λ w₁. done (w₁, true))
