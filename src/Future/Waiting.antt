-- ===== src/Future/Waiting.antt =====
-- Waiting for a future.
use message_bus_all_in_one_f.Common.{
  ℕ, ◌≡◌, refl, Bool, true, false, some, List, [], ◌∷◌, ◌++◌, arith,
}
use message_bus_all_in_one_f.Future.{
  Wake, timed_out, woken, join_loop, NetFuture, set_result, set_error, get_now,
}

-- The wakes that a wait takes before it ends: woken while the future is not ready.
pub data Slept : List Wake → Type 0 where
  still : Slept []
  more : {wakes : List Wake} → Slept wakes → Slept (woken false ∷ wakes)

-- A wait that has ended said true only if it had seen the future ready, before the first wait or
-- on a wake, and false only on the deadline; in both cases it had slept through every wake before.
pub data Ended (ready : Bool) (wakes : List Wake) : Bool → Type 0 where
  at_once : ready ≡ true → Ended ready wakes true
  on_wake :
      (before after : List Wake)
      → Slept before
      → wakes ≡ before ++ (woken true ∷ after)
      → Ended ready wakes true
  on_deadline :
      (before after : List Wake)
      → Slept before
      → wakes ≡ before ++ (timed_out ∷ after)
      → Ended ready wakes false

longer :
    {wakes : List Wake} {result : Bool}
    → Ended false wakes result
    → Ended false (woken false ∷ wakes) result
longer (at_once e) = at_once e
longer (on_wake before after s e) =
    on_wake (woken false ∷ before) after (more s) (ground (arith, e))
longer (on_deadline before after s e) =
    on_deadline (woken false ∷ before) after (more s) (ground (arith, e))

-- A wait that has ended with true had seen the future ready, before the first wait or on a wake, and
-- one that has ended with false had met its deadline; it had slept through every wake before.
pub join_loop-Ended :
    (ready : Bool) (wakes : List Wake) (result : Bool)
    → join_loop ready wakes ≡ some result
    → Ended ready wakes result
unfolding join_loop
join_loop-Ended true wakes true h = at_once refl
join_loop-Ended true wakes false h = cc
join_loop-Ended false [] result h = cc
join_loop-Ended false (timed_out ∷ wakes) true h = cc
join_loop-Ended false (timed_out ∷ wakes) false h = on_deadline [] wakes still refl
join_loop-Ended false (woken true ∷ wakes) true h = on_wake [] wakes still refl
join_loop-Ended false (woken true ∷ wakes) false h = cc
join_loop-Ended false (woken false ∷ wakes) result h = longer (join_loop-Ended false wakes result h)

-- What was set is what a later `get` reads, whether it was set as a result or as an error; the
-- callback is called exactly where there is one, and only set_error leaves the error mark.
pub get_now-set :
    (f : NetFuture) (content : List ℕ)
    → (get_now (set_result f content).0 ≡ some content)
      × (get_now (set_error f content).0 ≡ some content)
      × ((set_result f content).1 ≡ f.has_callback)
      × ((set_error f content).1 ≡ f.has_callback)
      × ((set_result f content).0.has_error ≡ f.has_error)
      × ((set_error f content).0.has_error ≡ true)
unfolding get_now set_result set_error
get_now-set f content = (refl, refl, refl, refl, refl, refl)
