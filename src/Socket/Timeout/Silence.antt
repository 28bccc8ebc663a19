-- ===== src/Socket/Timeout/Silence.antt =====
-- A socket that nothing happens on, polled by the waiter.
use message_bus_all_in_one_f.Common.{
  ℕ, ◌+◌, ◌<◌, true, false, ◌≡◌, refl, sym, ap, ◌∙◌, Bool-cases, inl, inr, some, List, [], ◌∷◌,
  ◌++◌, map, ltb, ltb→lt, ◌==◌, if◌then◌else◌,
}
use mathlib.Core.List.{append-nil, append_assoc}
use message_bus_all_in_one_f.Memory.{Outcome, done, ◌>>=◌}
use message_bus_all_in_one_f.Socket.State.{loop, Called, timed_out, World, call}
use message_bus_all_in_one_f.Socket.Update.{assert_that}
use message_bus_all_in_one_f.Socket.Timeout.{
  set_timeout, assert_in_loop, renew_timeout, is_past, update_timeout,
}

-- UpdateTimeout at each tick in turn; the clock stands still within a call.
unfoldable pub poll_all : List ℕ → World → Outcome World
poll_all [] w = done w
poll_all (n ∷ ns) w = update_timeout loop n n n w >>= poll_all ns

-- The ticks at which a timeout of `gap` with this deadline goes off.
unfoldable pub alarms : ℕ → ℕ → List ℕ → List ℕ
alarms deadline gap [] = []
alarms deadline gap (n ∷ ns) =
    let late = alarms (n + gap) gap ns in
    let early = alarms deadline gap ns in if ltb deadline n then n ∷ late else early

-- Each tick is more than `gap` after the one before, the first after `last`.
abbrev pub Spaced : ℕ → ℕ → List ℕ → Type 0
Spaced last gap [] = Unit
Spaced last gap (n ∷ ns) = (last + gap < n) × Spaced n gap ns

alarms-Spaced : (last gap : ℕ) (ns : List ℕ) → Spaced last gap (alarms (last + gap) gap ns)
unfolding alarms
alarms-Spaced last gap [] = tt
alarms-Spaced last gap (n ∷ ns) = elim (Bool-cases (ltb (last + gap) n)) [
  | inl late ↦ rw late (ltb→lt (last + gap) n late, alarms-Spaced n gap ns)
  | inr early ↦ rw early (alarms-Spaced last gap ns)
]

-- A watched socket with a timeout that no event has renewed.
pub record Armed (deadline gap : ℕ) (w : World) : Type 0 where
  pub needed : w.sock.is_timeout_need ≡ true
  pub due : w.sock.timeout_ms ≡ some deadline
  pub renews : w.sock.timeout_renew ≡ gap
  pub quiet : w.sock.need_renew_timeout ≡ false
  pub looped : w.sock.evloop ≡ true
  pub heard : w.sock.sockcb.on_timeout ≡ true

-- The socket with its deadline moved to `gap` after a tick.
abbrev moved : ℕ → ℕ → World → World
moved n gap w = record w {
  sock = record w.sock { timeout_ms = some (n + gap); need_renew_timeout = false };
}

-- One poll: the callback runs where the deadline is past, and the deadline moves.
poll_late :
    (n deadline gap : ℕ) (w : World)
    → Armed deadline gap w
    → ltb deadline n ≡ true
    → update_timeout loop n n n w ≡ done (call timed_out (moved n gap w))
unfolding update_timeout is_past renew_timeout assert_in_loop assert_that
poll_late n deadline gap w a late = elim (Bool-cases w.debug) [
  | inl d ↦ rw (a.needed, a.quiet, a.due, late, a.looped, a.renews, a.heard, d) refl
  | inr d ↦ rw (a.needed, a.quiet, a.due, late, a.looped, a.renews, a.heard, d) refl
]

poll_early :
    (n deadline gap : ℕ) (w : World)
    → Armed deadline gap w
    → ltb deadline n ≡ false
    → update_timeout loop n n n w ≡ done w
unfolding update_timeout is_past
poll_early n deadline gap w a early = rw (a.needed, a.quiet, a.due, early) refl

moved-Armed :
    (n deadline gap : ℕ) (w : World)
    → Armed deadline gap w
    → Armed (n + gap) gap (call timed_out (moved n gap w))
moved-Armed n deadline gap w a = record {
  needed = a.needed;
  due = refl;
  renews = a.renews;
  quiet = refl;
  looped = a.looped;
  heard = a.heard;
}

-- One call of onTimeout for each alarm.
unfoldable pub all_calls : List ℕ → List Called
all_calls ns = map (λ (n : ℕ). timed_out) ns

polled :
    (ns : List ℕ) (deadline gap : ℕ) (w : World)
    → Armed deadline gap w
    → (w' : World) × (poll_all ns w ≡ done w')
      × (w'.calls ≡ w.calls ++ all_calls (alarms deadline gap ns))
unfolding poll_all alarms all_calls
polled [] deadline gap w a = (w, refl, sym (append-nil w.calls))
polled (n ∷ ns) deadline gap w a = elim (Bool-cases (ltb deadline n)) [
  | inl late ↦
      let (w', e, c) = polled ns (n + gap) gap _ (moved-Armed n deadline gap w a) in
      (
        w',
        rw (poll_late n deadline gap w a late) e,
        rw late (c ∙ append_assoc w.calls (timed_out ∷ []) _),
      )
  | inr early ↦
      let (w', e, c) = polled ns deadline gap w a in
      (w', rw (poll_early n deadline gap w a early) e, rw early c)
]

same_calls : (gap now : ℕ) (w : World) → (set_timeout gap now w).calls ≡ w.calls
unfolding set_timeout
same_calls gap now w = elim (Bool-cases (gap == 0)) [ inl e ↦ rw e refl | inr e ↦ rw e refl ]

set_timeout-Armed :
    (gap now : ℕ) (w : World)
    → (gap == 0) ≡ false
    → w.sock.need_renew_timeout ≡ false
    → w.sock.evloop ≡ true
    → w.sock.sockcb.on_timeout ≡ true
    → Armed (now + gap) gap (set_timeout gap now w)
unfolding set_timeout
set_timeout-Armed gap now w positive quiet looped heard = rw positive (record {
  needed = refl;
  due = refl;
  renews = refl;
  quiet = quiet;
  looped = looped;
  heard = heard;
})

-- A timeout set on a watched socket on which nothing happens then: polled at any ticks, onTimeout is
-- called once for each alarm, and the alarms come more than the timeout after it was set and after
-- each other.
pub poll_all_lem :
    (gap now : ℕ) (ns : List ℕ) (w : World)
    → (gap == 0) ≡ false
    → w.sock.need_renew_timeout ≡ false
    → w.sock.evloop ≡ true
    → w.sock.sockcb.on_timeout ≡ true
    → (w' : World) × (poll_all ns (set_timeout gap now w) ≡ done w')
      × (w'.calls ≡ w.calls ++ all_calls (alarms (now + gap) gap ns))
      × Spaced now gap (alarms (now + gap) gap ns)
poll_all_lem gap now ns w positive quiet looped heard =
    let (w', e, c) =
      polled ns (now + gap) gap (set_timeout gap now w)
        (set_timeout-Armed gap now w positive quiet looped heard) in
    (
      w',
      e,
      c ∙ ap (λ xs. xs ++ all_calls (alarms (now + gap) gap ns)) (same_calls gap now w),
      alarms-Spaced now gap ns,
    )
