-- ===== src/Socket/Timeout.antt =====
-- SetTimeout, RenewTimeout and UpdateTimeout of Core/TcpSock.cpp. What GetTickCount answers is an
-- argument, one for each call.
pub mod Silence
use message_bus_all_in_one_f.Common.{
  ℕ, ◌+◌, Bool, true, false, Option, none, some, ltb, ◌==◌, if◌then◌else◌,
}
use message_bus_all_in_one_f.Memory.{Outcome, done, wild, ◌>>=◌}
use message_bus_all_in_one_f.Socket.State.{Thread, in_loop, timed_out, World, call}
use message_bus_all_in_one_f.Socket.Update.{assert_that}

-- `to_ms` is 0 for every number that is not positive.
unfoldable pub set_timeout : ℕ → ℕ → World → World
set_timeout to_ms now w =
    if to_ms == 0 then record w { sock = record w.sock { is_timeout_need = false } } else record w {
      sock = record w.sock {
        timeout_renew = to_ms;
        timeout_ms = some (now + to_ms);
        is_timeout_need = true;
      };
    }

-- `assert(m_evloop->IsInLoopThread())`
unfoldable pub assert_in_loop : Thread → World → Outcome World
assert_in_loop t w =
    if w.sock.evloop then assert_that (in_loop t) w else if w.debug then wild else done w

unfoldable pub renew_timeout : Thread → ℕ → World → Outcome World
renew_timeout t now w =
    if w.sock.is_timeout_need
    then (assert_in_loop t w >>= λ w₁. done (record w₁ {
      sock = record w₁.sock {
        timeout_ms = some (now + w₁.sock.timeout_renew);
        need_renew_timeout = false;
      };
    }))
    else done w

-- `now > m_timeout_ms`, where -1 is before every tick.
unfoldable pub is_past : Option ℕ → ℕ → Bool
is_past none now = true
is_past (some deadline) now = ltb deadline now

unfoldable pub update_timeout : Thread → ℕ → ℕ → ℕ → World → Outcome World
update_timeout t now₁ now₂ now₃ w =
    if w.sock.is_timeout_need
    then (do
      w₁ ← (if w.sock.need_renew_timeout then renew_timeout t now₁ w else done w)
      if is_past w₁.sock.timeout_ms now₂
          then (do
            w₂ ← assert_in_loop t w₁
            w₃ ← renew_timeout t now₃ w₂
            done (
                if w₃.sock.sockcb.on_timeout
                then call timed_out w₃
                else record w₃ { sock = record w₃.sock { is_timeout_need = false } }))
          else done w₁)
    else done w
