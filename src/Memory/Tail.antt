-- ===== src/Memory/Tail.antt =====
-- What a loop over packets leaves of its bytes. A packet has a head of `prefix` bytes, in which the
-- length of its content stands at `offset`.
use message_bus_all_in_one_f.Common.{
  ℕ, ◌+◌, ◌≤◌, ◌<◌, ◌≡◌, refl, ap, subst, ◌∙◌, List, length, length-drop, drop, drop-drop, arith,
  ltb, false,
}
use message_bus_all_in_one_f.Memory.{Outcome, done, load32, ntohl}
use message_bus_all_in_one_f.Memory.Inside.{Returns, returns}
use message_bus_all_in_one_f.Memory.Yields.{Yields}

-- Too few bytes for the next packet: for its head, or for the content that the head announces.
pub data Waits (prefix offset : ℕ) (tail : List ℕ) : Type 0 where
  no_head : length tail < prefix → Waits prefix offset tail
  no_content :
      (data_len : ℕ)
      → load32 (drop offset tail) ≡ done data_len
      → length tail < prefix + ntohl data_len
      → Waits prefix offset tail

-- The bytes that were used up, and those that are left.
abbrev pub Used : ℕ → ℕ → List ℕ → ℕ → Type 0
Used prefix offset pdata n = (n ≤ length pdata) × Waits prefix offset (drop n pdata)

pub returned : {A : Type 0} {m : Outcome A} → Returns m → Yields (λ a. m ≡ done a) m
returned {m = m} (returns a e) = rw e refl

pub le_of_false : (a b : ℕ) → ltb a b ≡ false → b ≤ a
le_of_false a b h = ground arith

pub further :
    (prefix offset : ℕ) (pdata : List ℕ) (n k : ℕ)
    → prefix + n ≤ length pdata
    → Used prefix offset (drop n (drop prefix pdata)) k
    → Used prefix offset pdata (prefix + n + k)
further prefix offset pdata n k whole (inside, waits) = (
  omega (arith, length-drop n (drop prefix pdata), length-drop prefix pdata),
  subst (Waits prefix offset)
      (drop-drop k n (drop prefix pdata)
        ∙ (drop-drop (n + k) prefix pdata ∙ ap (λ m. drop m pdata) (omega arith)))
      waits,
)
