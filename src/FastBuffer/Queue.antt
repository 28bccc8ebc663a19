-- ===== src/FastBuffer/Queue.antt =====
-- Any history of the buffer against the queue of bytes that it stands for.
use message_bus_all_in_one_f.Common.{
  ℕ, ◌≡◌, ◌↔◌, refl, true, false, Bool-cases, inl, inr, List, [], ◌∷◌, ◌++◌, length, length-take,
  drop, take, drop_all, arith, leb, if◌then◌else◌, Option, none, some, ap,
}
use message_bus_all_in_one_f.Memory.{Outcome, done, aborted, ◌>>=◌}
use message_bus_all_in_one_f.FastBuffer.{
  FastBuffer, is_empty, push_back, pop_front, clear, new_buffer, checked_size,
}
use message_bus_all_in_one_f.FastBuffer.Room.{IsValid, content, length-content}
use message_bus_all_in_one_f.FastBuffer.Refines.{push_back_lem, pop_front_lem}

-- The calls of the buffer's users.
pub data Op : Type 0 where
  push : List ℕ → Op
  pop : ℕ → Op
  reset : Op

unfoldable pub step : FastBuffer → Op → Outcome FastBuffer
step b (push bytes) = push_back b bytes
step b (pop n) = pop_front b n
step b reset = done (clear b)

unfoldable pub run : FastBuffer → List Op → Outcome FastBuffer
run b [] = done b
run b (o ∷ os) = step b o >>= λ b'. run b' os

-- The queue: a list of bytes, oldest first. Taking more than there is has no meaning (`none`).
unfoldable pub spec_step : List ℕ → Op → Option (List ℕ)
spec_step q (push bytes) = some (q ++ bytes)
spec_step q (pop n) = if leb n (length q) then some (drop n q) else none
spec_step q reset = some []

unfoldable pub spec_run : List ℕ → List Op → Option (List ℕ)
spec_run q [] = some q
spec_run q (o ∷ os) = elim (spec_step q o) [ none ↦ none | some q' ↦ spec_run q' os ]

-- A buffer holds the queue's bytes, or the assertion has failed where the queue has no meaning.
pub data Agrees : Outcome FastBuffer → Option (List ℕ) → Type 0 where
  holds : (b : FastBuffer) → IsValid b → Agrees (done b) (some (content b))
  refused : Agrees aborted none

Agrees-content :
    (b : FastBuffer) (q : List ℕ) → IsValid b → content b ≡ q → Agrees (done b) (some q)
Agrees-content b q v e = rw (← e) (holds b v)

clear_lem : (b : FastBuffer) → Agrees (done (clear b)) (some [])
unfolding clear
clear_lem b = Agrees-content (clear b) [] (unfold clear in omega arith) refl

pop_front_refused :
    (b : FastBuffer) (n : ℕ)
    → IsValid b
    → leb n (length (content b)) ≡ false
    → pop_front b n ≡ aborted
unfolding pop_front checked_size
pop_front_refused b n v h = ground (arith, length-content b v)

step-Agrees : (b : FastBuffer) (o : Op) → IsValid b → Agrees (step b o) (spec_step (content b) o)
unfolding step spec_step
step-Agrees b (push bytes) v =
    let (b', e, v', c) = push_back_lem b bytes v in rw e (Agrees-content b' _ v' c)
step-Agrees b (pop n) v = elim (Bool-cases (leb n (length (content b)))) [
  | inl fits ↦
      let (b', e, v', c) = pop_front_lem b n v (ground arith) in
      rw (e, fits) (Agrees-content b' _ v' c)
  | inr more ↦ rw (pop_front_refused b n v more, more) refused
]
step-Agrees b reset v = clear_lem b

run-bind :
    (os : List Op)
    → ((b : FastBuffer) → IsValid b → Agrees (run b os) (spec_run (content b) os))
    → {r : Outcome FastBuffer} {q : Option (List ℕ)} → Agrees r q
    → Agrees (r >>= λ b. run b os) (elim q [ none ↦ none | some q' ↦ spec_run q' os ])
run-bind os rest (holds b v) = rest b v
run-bind os rest refused = refused

-- Every history of pushes, pops and clears, begun on any valid buffer, leaves the bytes that the
-- queue would have, and fails an assertion exactly where it takes more than there is.
pub run-Agrees :
    (b : FastBuffer) (os : List Op) → IsValid b → Agrees (run b os) (spec_run (content b) os)
unfolding run spec_run
run-Agrees b [] v = holds b v
run-Agrees b (o ∷ os) v = run-bind os (λ b' v'. run-Agrees b' os v') (step-Agrees b o v)

pub new_buffer-IsValid : IsValid new_buffer × (content new_buffer ≡ [])
unfolding new_buffer
new_buffer-IsValid = (record { read_le_write = omega arith; write_le_size = omega arith }, refl)

-- `empty` and `size` speak of the bytes of a valid buffer.
pub is_empty_iff :
    (b : FastBuffer)
    → IsValid b
    → ((is_empty b ≡ true) ↔ (content b ≡ [])) × (checked_size b ≡ done (length (content b)))
unfolding is_empty checked_size
is_empty_iff b v = (
  (
    λ h.
        drop_all b.readstart (take b.writestart b.innerdata)
          (ground (arith, length-take b.writestart b.innerdata)),
    λ h. ground (arith, ap length h, length-content b v),
  ),
  ground (arith, length-content b v),
)
