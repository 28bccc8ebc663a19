-- ===== src/Memory/Yields.antt =====
-- Calls that end with a value of which something holds.
use message_bus_all_in_one_f.Common.{Bool, true, false, ◌≡◌, refl, if◌then◌else◌}
use message_bus_all_in_one_f.Memory.{Outcome, done, aborted, wild, ◌>>=◌}

pub false-true : false ≡ true → ⊥
false-true e = cc

-- A call that ends with a value, of which `P` holds.
abbrev pub Yields {ℓ} : {A : Type ℓ} → (A → Type 0) → Outcome A → Type 0
Yields P (done a) = P a
Yields P aborted = ⊥
Yields P wild = ⊥

pub Yields-bind {ℓ κ} :
    {A : Type ℓ} {B : Type κ} (P : A → Type 0) (Q : B → Type 0) (m : Outcome A) (f : A → Outcome B)
    → Yields P m
    → ((a : A) → P a → Yields Q (f a))
    → Yields Q (m >>= f)
Yields-bind P Q (done a) f p next = next a p
Yields-bind P Q aborted f p next = absurd p
Yields-bind P Q wild f p next = absurd p

pub Yields-if {ℓ} :
    {A : Type ℓ} (P : A → Type 0) (b : Bool) (x y : Outcome A)
    → (b ≡ true → Yields P x)
    → (b ≡ false → Yields P y)
    → Yields P (if b then x else y)
Yields-if P true x y px py = px refl
Yields-if P false x y px py = py refl

pub Yields-eq {ℓ} :
    {A : Type ℓ} (P : A → Type 0) {m : Outcome A} {a : A} → m ≡ done a → P a → Yields P m
Yields-eq P e p = rw e p

pub Yields-map {ℓ} :
    {A : Type ℓ} (P Q : A → Type 0) (m : Outcome A)
    → ((a : A) → P a → Q a)
    → Yields P m
    → Yields Q m
Yields-map P Q (done a) f p = f a p
Yields-map P Q aborted f p = p
Yields-map P Q wild f p = p

pub Yields-elim {ℓ} :
    {A : Type ℓ} (P : A → Type 0) (m : Outcome A) → Yields P m → (a : A) × (m ≡ done a) × P a
Yields-elim P (done a) p = (a, refl, p)
Yields-elim P aborted p = absurd p
Yields-elim P wild p = absurd p

-- Both branches of a test.
pub if-both {ℓ} :
    {A : Type ℓ} (P : A → Type 0) (b : Bool) (x y : A)
    → (b ≡ true → P x)
    → (b ≡ false → P y)
    → P (if b then x else y)
if-both P true x y p q = p refl
if-both P false x y p q = q refl
