-- ===== src/Server/Names.antt =====
-- is_prefix_matching of Core/msgbus_server.cpp: how a destination name selects services.
use message_bus_all_in_one_f.Common.{
  ℕ, ◌≤◌, ◌≡◌, ◌↔◌, ◌⊎◌, inl, inr, ap, sym, ◌∙◌, Bool, true, List, ◌++◌, length, length-append,
  take, take-append, drop, ltb, if◌then◌else◌, bytes_eq, bytes_eq→eq, bytes_eq_refl, bytes_eq_comm,
  arith, tests, Bool-cases, take-append-drop, take_all,
}

unfoldable pub is_prefix_matching : List ℕ → List ℕ → Bool
is_prefix_matching left right =
    if ltb (length right) (length left)
    then bytes_eq (take (length right) left) right
    else bytes_eq (take (length left) right) left

-- `text` is `prefix` and something more.
abbrev pub Extends : List ℕ → List ℕ → Type 0
Extends prefix text = (rest : List ℕ) × (text ≡ prefix ++ rest)

take→Extends : (prefix text : List ℕ) → take (length prefix) text ≡ prefix → Extends prefix text
take→Extends prefix text e = (
  drop (length prefix) text,
  sym (take-append-drop (length prefix) text)
      ∙ ap (λ (p : List ℕ). p ++ drop (length prefix) text) e,
)

Extends→take : (prefix text : List ℕ) → Extends prefix text → take (length prefix) text ≡ prefix
Extends→take prefix text (rest, e) = rw e (take-append prefix rest)

covers :
    (prefix text : List ℕ)
    → (bytes_eq (take (length prefix) text) prefix ≡ true) ↔ Extends prefix text
covers prefix text = (
  λ e. take→Extends prefix text (bytes_eq→eq _ prefix e),
  λ x. rw (Extends→take prefix text x, bytes_eq_refl prefix),
)

-- A name that extends one at least as long is that name.
Extends-eq :
    (prefix text : List ℕ) → length text ≤ length prefix → Extends prefix text → text ≡ prefix
Extends-eq prefix text h x = sym (take_all text (length prefix) h) ∙ Extends→take prefix text x

Extends-length : (prefix text : List ℕ) → Extends prefix text → length prefix ≤ length text
Extends-length prefix text (rest, e) = omega (arith, ap length e, length-append prefix rest)

-- Two names match exactly when one of them begins with the other.
pub is_prefix_matching_iff :
    (left right : List ℕ)
    → (is_prefix_matching left right ≡ true) ↔ (Extends right left ⊎ Extends left right)
unfolding is_prefix_matching
is_prefix_matching_iff left right = elim (Bool-cases (ltb (length right) (length left))) [
  | inl longer ↦ rw longer (
    λ e. inl ((covers right left).0 e),
    elim [
      | inl x ↦ (covers right left).1 x
      | inr x ↦ absurd (omega (tests, Extends-length left right x))
    ],
  )
  | inr shorter ↦ rw shorter (
    λ e. inr ((covers left right).0 e),
    elim [
      | inl x ↦
          rw (Extends-eq right left (ground arith) x, take_all right (length right) (omega arith))
            (bytes_eq_refl right)
      | inr x ↦ (covers left right).1 x
    ],
  )
]

-- Which of two names comes first makes no difference.
pub is_prefix_matching_comm :
    (left right : List ℕ) → is_prefix_matching left right ≡ is_prefix_matching right left
unfolding is_prefix_matching
is_prefix_matching_comm left right =
    ground
      (arith, take_all left (length right), take_all right (length left), bytes_eq_comm left right)
