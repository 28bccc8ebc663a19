-- ===== src/Socket/Connect/Outcomes.antt =====
-- How Connect ends on a socket made for it.
use message_bus_all_in_one_f.Common.{
  ℕ, Bool, true, false, ◌&&◌, ◌≡◌, refl, sym, ◌∙◌, Bool-cases, Option-cases, inl, inr, none, some,
  List, ◌==◌,
}
use message_bus_all_in_one_f.Memory.{Outcome, done}
use message_bus_all_in_one_f.Socket.State.{
  Unset, new_sock, is_closed, can_send, Thread, World, new_world,
}
use message_bus_all_in_one_f.Socket.Update.{assert_that, close}
use message_bus_all_in_one_f.Socket.Connect.{
  ConnectResult, connected, in_progress, refused, FcntlResult, unreadable, unwritable, flagged,
  Answers, set_non_block, set_close_after_exec, connected_sock, await_connection, connecting,
  connect_to,
}

-- Whether `connect` leaves the connection to what follows.
unfoldable pub accepts : ConnectResult → Bool → Bool
accepts connected b = b
accepts in_progress b = b
accepts (refused e) b = false

-- The answers with which a connection succeeds.
unfoldable pub succeeds : Answers → Bool
succeeds a = elim a.socket [
  | none ↦ false
  | some n ↦ accepts a.connects (a.select_ready && (a.so_error == 0))
]

-- How a call ends that answers `ok`: an open socket, or one that still has the descriptor and that
-- Close does nothing to.
pub record Ends (a : Answers) (w : World) (ok : Bool) : Type 0 where
  pub blocking : w.nonblock ≡ false
  pub opened : ok ≡ true → (is_closed w.sock ≡ false) × (can_send w.sock ≡ true)
  pub leaked :
      ok ≡ false
      → (w.sock.fd ≡ a.socket) × ((t : Thread) (needremove : Bool) → close t needremove w ≡ done w)

-- The socket while it connects, with the errno that the flags left.
pending : Unset → ℕ → ℕ → World
pending u n e = new_world false (record (new_sock u) { fd = some n; last_errno = e })

errno_of : Unset → FcntlResult → ℕ
errno_of u (unreadable e) = e
errno_of u unwritable = u.any_errno
errno_of u flagged = u.any_errno

-- FD_CLOEXEC changes nothing but the errno, since a release build does not check the assertion.
close_after_exec :
    (u : Unset) (n : ℕ) (f : FcntlResult)
    → set_close_after_exec f (pending u n u.any_errno) ≡ done (pending u n (errno_of u f))
unfolding set_close_after_exec assert_that pending errno_of new_world new_sock
close_after_exec u n (unreadable e) = refl
close_after_exec u n unwritable = refl
close_after_exec u n flagged = refl

-- SetNonBlock finds the socket closed.
still_blocking :
    (u : Unset) (n e : ℕ) (f : FcntlResult) → (set_non_block f (pending u n e)).0 ≡ pending u n e
unfolding set_non_block pending is_closed new_world new_sock
still_blocking u n e f = refl

-- A failure leaves the descriptor, and the socket closed.
left_behind : (a : Answers) (u : Unset) (n e : ℕ) → a.socket ≡ some n → Ends a (pending u n e) false
unfolding pending new_world new_sock is_closed close
left_behind a u n e h = record {
  blocking = refl;
  opened = λ g. cc;
  leaked = λ g. (sym h, λ t b. refl);
}

opened-Ends :
    (a : Answers) (u : Unset) (n e : ℕ) (ip : List ℕ) (port : ℕ)
    → Ends a (record (pending u n e) { sock = connected_sock ip port (pending u n e).sock }) true
unfolding pending new_world new_sock is_closed can_send connected_sock
opened-Ends a u n e ip port = record {
  blocking = refl;
  opened = λ g. (refl, refl);
  leaked = λ g. cc;
}

Result : Answers → Bool → Outcome (World × Bool) → Type 0
Result a ok m = (w : World) × (m ≡ done (w, ok)) × Ends a w ok

-- Close does nothing to a socket that Connect has not opened.
close-pending :
    (t : Thread) (u : Unset) (n e : ℕ) → close t true (pending u n e) ≡ done (pending u n e)
unfolding close pending new_world new_sock is_closed
close-pending t u n e = refl

await_late :
    (t : Thread) (ip : List ℕ) (port : ℕ) (a : Answers) (u : Unset) (n e : ℕ)
    → a.select_ready ≡ false
    → await_connection t ip port a (pending u n e) ≡ done (pending u n a.select_errno, false)
unfolding await_connection pending new_world new_sock close is_closed
await_late t ip port a u n e late = rw late refl

await_bad :
    (t : Thread) (ip : List ℕ) (port : ℕ) (a : Answers) (u : Unset) (n e : ℕ)
    → a.select_ready ≡ true
    → (a.so_error == 0) ≡ false
    → await_connection t ip port a (pending u n e) ≡ done (pending u n a.last_errno, false)
unfolding await_connection pending new_world new_sock close is_closed
await_bad t ip port a u n e ready bad = rw (ready, bad) refl

await_fine :
    (t : Thread) (ip : List ℕ) (port : ℕ) (a : Answers) (u : Unset) (n e : ℕ)
    → a.select_ready ≡ true
    → (a.so_error == 0) ≡ true
    → await_connection t ip port a (pending u n e)
      ≡ done (record (pending u n e) { sock = connected_sock ip port (pending u n e).sock }, true)
unfolding await_connection
await_fine t ip port a u n e ready fine = rw (ready, fine) refl

both : (b c : Bool) → b ≡ true → c ≡ true → (b && c) ≡ true
both b c h g = rw (h, g) refl

first_false : (b c : Bool) → b ≡ false → (b && c) ≡ false
first_false b c h = rw h refl

second_false : (b c : Bool) → b ≡ true → c ≡ false → (b && c) ≡ false
second_false b c h g = rw (h, g) refl

awaited :
    (t : Thread) (ip : List ℕ) (port : ℕ) (a : Answers) (u : Unset) (n e : ℕ)
    → a.socket ≡ some n
    → (ok : Bool) × (ok ≡ (a.select_ready && (a.so_error == 0)))
      × Result a ok (await_connection t ip port a (pending u n e))
unfolding Result
awaited t ip port a u n e h = elim (Bool-cases a.select_ready) [
  | inr late ↦ (
    false,
    sym (first_false a.select_ready (a.so_error == 0) late),
    (
      pending u n a.select_errno,
      await_late t ip port a u n e late,
      left_behind a u n a.select_errno h,
    ),
  )
  | inl ready ↦ elim (Bool-cases (a.so_error == 0)) [
    | inl fine ↦ (
      true,
      sym (both a.select_ready (a.so_error == 0) ready fine),
      (_, await_fine t ip port a u n e ready fine, opened-Ends a u n e ip port),
    )
    | inr bad ↦ (
      false,
      sym (second_false a.select_ready (a.so_error == 0) ready bad),
      (
        pending u n a.last_errno,
        await_bad t ip port a u n e ready bad,
        left_behind a u n a.last_errno h,
      ),
    )
  ]
]

connected_ends :
    (t : Thread) (ip : List ℕ) (port : ℕ) (a : Answers) (c : ConnectResult) (u : Unset) (n e : ℕ)
    → a.socket ≡ some n
    → (ok : Bool) × (ok ≡ accepts c (a.select_ready && (a.so_error == 0)))
      × Result a ok (connecting t ip port a c (pending u n e))
unfolding accepts Result pending new_world connecting
connected_ends t ip port a connected u n e h = awaited t ip port a u n e h
connected_ends t ip port a in_progress u n e h = awaited t ip port a u n e h
connected_ends t ip port a (refused k) u n e h =
    (false, refl, (pending u n k, refl, left_behind a u n k h))

connect_some :
    (t : Thread) (ip : List ℕ) (port : ℕ) (a : Answers) (u : Unset) (n : ℕ)
    → a.socket ≡ some n
    → connect_to t ip port a (new_world false (new_sock u))
      ≡ connecting t ip port a a.connects (pending u n (errno_of u a.cloexec))
unfolding connect_to assert_that pending new_world new_sock connecting await_connection
connect_some t ip port a u n fd =
    rw (fd, close_after_exec u n a.cloexec, still_blocking u n (errno_of u a.cloexec) a.non_block)
      refl

unconnected : Unset → ℕ → World
unconnected u e = new_world false (record (new_sock u) { last_errno = e })

connect_none :
    (t : Thread) (ip : List ℕ) (port : ℕ) (a : Answers) (u : Unset)
    → a.socket ≡ none
    → connect_to t ip port a (new_world false (new_sock u))
      ≡ done (unconnected u a.socket_errno, false)
unfolding connect_to assert_that unconnected new_world new_sock
connect_none t ip port a u no_fd = rw no_fd refl

unconnected-Ends :
    (a : Answers) (u : Unset) (e : ℕ) → a.socket ≡ none → Ends a (unconnected u e) false
unfolding unconnected new_world new_sock is_closed close
unconnected-Ends a u e h = record {
  blocking = refl;
  opened = λ g. cc;
  leaked = λ g. (sym h, λ t b. refl);
}

succeeds-none : (a : Answers) → a.socket ≡ none → false ≡ succeeds a
unfolding succeeds
succeeds-none a h = rw h refl

succeeds-some :
    (a : Answers) (n : ℕ)
    → a.socket ≡ some n
    → accepts a.connects (a.select_ready && (a.so_error == 0)) ≡ succeeds a
unfolding succeeds
succeeds-some a n h = rw h refl

-- Connect in a release build, on a new socket that no loop watches: it answers true exactly where the system gives a
-- descriptor, does not refuse the connection, and reports the descriptor ready in time and without
-- an error. Then the socket is open. Otherwise the descriptor that the system gave stays in the
-- socket, and Close does nothing about it, so that it is never closed. In neither case is the
-- descriptor set to O_NONBLOCK, since SetNonBlock takes the socket for closed.
pub connect_lem :
    (t : Thread) (ip : List ℕ) (port : ℕ) (a : Answers) (u : Unset)
    → (ok : Bool) × (ok ≡ succeeds a)
      × ((w : World) × (connect_to t ip port a (new_world false (new_sock u)) ≡ done (w, ok))
          × Ends a w ok)
unfolding Result
connect_lem t ip port a u = elim (Option-cases a.socket) [
  | inl no_fd ↦ (
    false,
    succeeds-none a no_fd,
    (_, connect_none t ip port a u no_fd, unconnected-Ends a u a.socket_errno no_fd),
  )
  | inr (n, fd) ↦
      let (ok, e, (w, eq, ends)) =
        connected_ends t ip port a a.connects u n (errno_of u a.cloexec) fd in
      (ok, e ∙ succeeds-some a n fd, (w, connect_some t ip port a u n fd ∙ eq, ends))
]
