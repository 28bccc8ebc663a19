-- ===== src/Memory/Inside.antt =====
-- Calls that end with a value, and the accesses that stay inside an object.
use message_bus_all_in_one_f.Common.{
  ℕ, suc, zero, ◌≤◌, ◌<◌, ◌≡◌, refl, List, [], ◌∷◌, Bool, true, false, length, arith, if◌then◌else◌,
}
use message_bus_all_in_one_f.Memory.{
  Outcome, done, aborted, wild, ◌>>=◌, load8, load16, load32, strncpy, memcpy, too_short,
}
use message_bus_all_in_one_f.Memory.Copy.{padded, strncpy-eq, memcpy-eq}

pub data Returns {ℓ} {A : Type ℓ} (o : Outcome A) : Type ℓ where
  returns : (a : A) → o ≡ done a → Returns o

pub Returns-done {ℓ} : {A : Type ℓ} (a : A) → Returns (done a)
Returns-done a = returns a refl

pub Returns-bind {ℓ κ} :
    {A : Type ℓ} {B : Type κ} {m : Outcome A} {f : A → Outcome B}
    → Returns m
    → ((a : A) → Returns (f a))
    → Returns (m >>= f)
Returns-bind {f = f} (returns a e) next = rw e (next a)

pub Returns-if {ℓ} :
    {A : Type ℓ} (b : Bool) {x y : Outcome A}
    → (b ≡ true → Returns x)
    → (b ≡ false → Returns y)
    → Returns (if b then x else y)
Returns-if true f g = f refl
Returns-if false f g = g refl

-- A length that is given and not too short is enough.
pub long_enough : (len need : ℕ) → 0 < len → too_short len need ≡ false → need ≤ len
long_enough len need h e = ground arith

pub enough : (len need : ℕ) → need ≤ len → too_short len need ≡ false
enough len need h = ground arith

pub load8_inside : (p : List ℕ) → 0 < length p → Returns (load8 p)
unfolding load8
load8_inside [] h = absurd (omega arith)
load8_inside (a ∷ p) h = Returns-done a

pub load16_inside : (p : List ℕ) → 2 ≤ length p → Returns (load16 p)
unfolding load16
load16_inside [] h = absurd (omega arith)
load16_inside (a ∷ []) h = absurd (omega arith)
load16_inside (a ∷ b ∷ p) h = Returns-done _

pub load32_inside : (p : List ℕ) → 4 ≤ length p → Returns (load32 p)
unfolding load32
load32_inside [] h = absurd (omega arith)
load32_inside (a ∷ []) h = absurd (omega arith)
load32_inside (a ∷ b ∷ []) h = absurd (omega arith)
load32_inside (a ∷ b ∷ c ∷ []) h = absurd (omega arith)
load32_inside (a ∷ b ∷ c ∷ d ∷ p) h = Returns-done _

pub strncpy_inside : (n : ℕ) (p : List ℕ) → n ≤ length p → Returns (strncpy n p)
strncpy_inside n p h = returns (padded n p) (strncpy-eq n p h)

pub memcpy_inside : (n : ℕ) (p : List ℕ) → n ≤ length p → Returns (memcpy n p)
memcpy_inside n p h = returns _ (memcpy-eq n p h)

-- Outside it the accesses are wild.
pub load16_outside : (p : List ℕ) → length p < 2 → load16 p ≡ wild
unfolding load16
load16_outside [] h = refl
load16_outside (a ∷ []) h = refl
load16_outside (a ∷ b ∷ p) h = absurd (omega arith)

pub load32_outside : (p : List ℕ) → length p < 4 → load32 p ≡ wild
unfolding load32
load32_outside [] h = refl
load32_outside (a ∷ []) h = refl
load32_outside (a ∷ b ∷ []) h = refl
load32_outside (a ∷ b ∷ c ∷ []) h = refl
load32_outside (a ∷ b ∷ c ∷ d ∷ p) h = absurd (omega arith)

pub memcpy_outside : (n : ℕ) (p : List ℕ) → length p < n → memcpy n p ≡ wild
unfolding memcpy
memcpy_outside zero p h = absurd (omega arith)
memcpy_outside (suc n) [] h = refl
memcpy_outside (suc n) (c ∷ p) h = rw (memcpy_outside n p (omega arith))

-- What holds of the value of a call, where it ends with one.
abbrev pub Ensures {ℓ κ} : {A : Type ℓ} → (A → Type κ) → Outcome A → Type κ
Ensures P (done a) = P a
Ensures P aborted = Unit
Ensures P wild = Unit

pub Ensures-bind {ℓ κ μ ν} :
    {A : Type ℓ} {B : Type κ} (P : A → Type μ) (Q : B → Type ν) (m : Outcome A) (f : A → Outcome B)
    → Ensures P m
    → ((a : A) → P a → Ensures Q (f a))
    → Ensures Q (m >>= f)
Ensures-bind P Q (done a) f p next = next a p
Ensures-bind P Q aborted f p next = tt
Ensures-bind P Q wild f p next = tt

-- A call whose value is not looked at.
pub Ensures-any {ℓ κ ν} :
    {A : Type ℓ} {B : Type κ} (Q : B → Type ν) (m : Outcome A) (f : A → Outcome B)
    → ((a : A) → Ensures Q (f a))
    → Ensures Q (m >>= f)
Ensures-any Q (done a) f next = next a
Ensures-any Q aborted f next = tt
Ensures-any Q wild f next = tt

pub Ensures-if {ℓ κ} :
    {A : Type ℓ} (P : A → Type κ) (b : Bool) (x y : Outcome A)
    → Ensures P x
    → Ensures P y
    → Ensures P (if b then x else y)
Ensures-if P true x y px py = px
Ensures-if P false x y px py = py
