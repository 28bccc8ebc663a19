-- ===== src/Table.antt =====
-- `std::map` as an association list in the order of its keys, over any key type with an order.
use mathlib.Core.Path.{subst₂}
use mathlib.Core.Option.{some-injective}
use message_bus_all_in_one_f.Common.{
  ◌≡◌, ◌↔◌, refl, sym, Bool, true, Option, none, some, List, [], ◌∷◌, if◌then◌else◌, ℕ, ltb, ◌==◌,
  ==_iff, bytes_eq, bytes_eq_refl, bytes_eq→eq, subst, arith, Bool-cases, inl, inr, All,
}
use message_bus_all_in_one_f.Text.{bytes_lt}

pub record Key (K : Type 0) : Type 0 where
  pub beq : K → K → Bool
  pub blt : K → K → Bool
  pub beq_iff : (a b : K) → (beq a b ≡ true) ↔ (a ≡ b)

pub bytes_eq_iff : (a b : List ℕ) → (bytes_eq a b ≡ true) ↔ (a ≡ b)
bytes_eq_iff a b = (bytes_eq→eq a b, λ e. subst (λ x. bytes_eq a x ≡ true) e (bytes_eq_refl a))

instance abbrev pub nat_key : Key ℕ
nat_key = record { beq = λ a b. a == b; blt = ltb; beq_iff = ==_iff }

instance abbrev pub bytes_key : Key (List ℕ)
bytes_key = record { beq = bytes_eq; blt = bytes_lt; beq_iff = bytes_eq_iff }

abbrev pub Table : Type 0 → Type 0 → Type 0
Table K V = List (K × V)

pub beq_refl : {K : Type 0} ⦃key : Key K⦄ → (k : K) → key.beq k k ≡ true
beq_refl ⦃key⦄ k = (key.beq_iff k k).1 refl

module _ {K V : Type 0} ⦃key : Key K⦄ where
  -- `m.find(k)`.
  unfoldable pub lookup : K → Table K V → Option V
  lookup k [] = none
  lookup k ((j, v) ∷ m) = if key.beq k j then some v else lookup k m

  -- `m[k] = v`.
  unfoldable pub insert : K → V → Table K V → Table K V
  insert k v [] = (k, v) ∷ []
  insert k v ((j, w) ∷ m) =
      let rest = insert k v m in
      if key.beq k j then (k, v) ∷ m else if key.blt k j then (k, v) ∷ (j, w) ∷ m else (j, w) ∷ rest

  -- `m.erase(k)`: a map holds a key once.
  unfoldable pub erase : K → Table K V → Table K V
  erase k [] = []
  erase k ((j, v) ∷ m) = let rest = erase k m in if key.beq k j then rest else (j, v) ∷ rest

  pub lookup-insert :
      (k j : K) (v : V) (m : Table K V)
      → lookup j (insert k v m) ≡ (if key.beq j k then some v else lookup j m)
  unfolding lookup insert
  lookup-insert k j v [] = refl
  lookup-insert k j v ((i, w) ∷ m) = ground (
    arith,
    key.beq_iff k j,
    key.beq_iff j k,
    key.beq_iff k i,
    key.beq_iff j i,
    lookup-insert k j v m,
  )

  pub lookup-erase :
      (k j : K) (m : Table K V) → lookup j (erase k m) ≡ (if key.beq j k then none else lookup j m)
  unfolding lookup erase
  lookup-erase k j [] = ground arith
  lookup-erase k j ((i, w) ∷ m) = ground (
    arith,
    key.beq_iff k j,
    key.beq_iff j k,
    key.beq_iff k i,
    key.beq_iff j i,
    lookup-erase k j m,
  )

  -- A predicate on entries is kept by both writes.
  pub insert-All {ℓ} :
      (P : K × V → Type ℓ) (k : K) (v : V) (m : Table K V)
      → P (k, v)
      → All P m
      → All P (insert k v m)
  unfolding insert
  insert-All P k v [] p a = (p, tt)
  insert-All P k v ((j, w) ∷ m) p a = elim (Bool-cases (key.beq k j)) [
    | inl hit ↦ rw hit (p, a.1)
    | inr miss ↦ elim (Bool-cases (key.blt k j)) [
      | inl before ↦ rw (miss, before) (p, a)
      | inr behind ↦ rw (miss, behind) (a.0, insert-All P k v m p a.1)
    ]
  ]

  pub erase-All {ℓ} : (P : K × V → Type ℓ) (k : K) (m : Table K V) → All P m → All P (erase k m)
  unfolding erase
  erase-All P k [] a = tt
  erase-All P k ((j, w) ∷ m) a = elim (Bool-cases (key.beq k j)) [
    | inl hit ↦ rw hit (erase-All P k m a.1)
    | inr miss ↦ rw miss (a.0, erase-All P k m a.1)
  ]

  pub lookup-All {ℓ} :
      (P : K × V → Type ℓ) (k : K) (v : V) (m : Table K V)
      → All P m
      → lookup k m ≡ some v
      → P (k, v)
  unfolding lookup
  lookup-All P k v [] a e = cc
  lookup-All P k v ((j, w) ∷ m) a e = elim (Bool-cases (key.beq k j)) [
    | inl hit ↦
        let same : k ≡ j = (key.beq_iff k j).0 hit in
        let value : some w ≡ some v = rw hit at e in
        subst₂ (λ x y. P (x, y)) (sym same) (some-injective w v value) a.0
    | inr miss ↦ lookup-All P k v m a.1 (rw miss at e)
  ]
