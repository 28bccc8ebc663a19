-- ===== src/Memory.antt =====
-- The C and POSIX primitives that Core/msgbus_def.cpp packs and unpacks with, on a little-endian
-- machine: raw loads and stores, `htons` and its kin, `strncpy`, `memcpy`, and C strings.
-- A pointer is the list of the bytes from it to the end of its object.
pub mod Copy
pub mod Words
pub mod Inside
pub mod Yields
pub mod Tail
use message_bus_all_in_one_f.Common.{
  ℕ, zero, suc, ◌+◌, ◌*◌, ◌/◌, ◌%◌, ◌^◌, Bool, not, ◌&&◌, Option, none, some, List, [], ◌∷◌, ltb,
  ◌==◌, if◌then◌else◌, replicate,
}

-- How a call ends: with a value, by `throw;` while no exception is in flight (which ends the
-- process), or by an access outside the object, of which the language says nothing.
pub data Outcome {ℓ} (A : Type ℓ) : Type ℓ where
  done : A → Outcome A
  aborted : Outcome A
  wild : Outcome A

infixl 5 ◌>>=◌
abbrev pub ◌>>=◌ {ℓ κ} : {A : Type ℓ} {B : Type κ} → Outcome A → (A → Outcome B) → Outcome B
done a >>= f = f a
aborted >>= f = aborted
wild >>= f = wild

-- uint16_t and uint32_t in the machine's byte order.
abbrev pub store16 : ℕ → List ℕ
store16 x = x % 256 ∷ x / 256 % 256 ∷ []

abbrev pub store32 : ℕ → List ℕ
store32 x = x % 256 ∷ x / 256 % 256 ∷ x / 65536 % 256 ∷ x / 16777216 % 256 ∷ []

unfoldable pub load8 : List ℕ → Outcome ℕ
load8 [] = wild
load8 (a ∷ p) = done a

unfoldable pub load16 : List ℕ → Outcome ℕ
load16 (a ∷ b ∷ p) = done (a + b * 256)
load16 p = wild

unfoldable pub load32 : List ℕ → Outcome ℕ
load32 (a ∷ b ∷ c ∷ d ∷ p) = done (a + b * 256 + c * 65536 + d * 16777216)
load32 p = wild

-- `htons` and `ntohs` swap the two bytes, `htonl` and `ntohl` the four.
unfoldable pub htons : ℕ → ℕ
htons x = x % 256 * 256 + x / 256 % 256

unfoldable pub htonl : ℕ → ℕ
htonl x = x % 256 * 16777216 + x / 256 % 256 * 65536 + x / 65536 % 256 * 256 + x / 16777216 % 256

abbrev pub ntohs : ℕ → ℕ
ntohs = htons

abbrev pub ntohl : ℕ → ℕ
ntohl = htonl

-- What `strncpy(dst, p, n)` writes: it reads up to a NUL, and fills up with NULs.
unfoldable pub strncpy : ℕ → List ℕ → Outcome (List ℕ)
strncpy zero p = done []
strncpy (suc n) [] = wild
strncpy (suc n) (c ∷ p) =
    let rest = strncpy n p in
    if c == 0 then done (replicate (suc n) 0) else (rest >>= λ s. done (c ∷ s))

-- What `memcpy(dst, p, n)` writes.
unfoldable pub memcpy : ℕ → List ℕ → Outcome (List ℕ)
memcpy zero p = done []
memcpy (suc n) [] = wild
memcpy (suc n) (c ∷ p) = memcpy n p >>= λ s. done (c ∷ s)

-- `std::string(p)`: the bytes before the first NUL.
unfoldable pub c_string : List ℕ → Outcome (List ℕ)
c_string [] = wild
c_string (c ∷ p) = let rest = c_string p in if c == 0 then done [] else (rest >>= λ s. done (c ∷ s))

-- `len != 0 && len < need`: a length of 0 means that the caller gives none.
abbrev pub too_short : ℕ → ℕ → Bool
too_short len need = not (len == 0) && ltb len need

-- The memory behind a pointer that may be NULL.
abbrev pub at_pointer : Option (List ℕ) → List ℕ
at_pointer none = []
at_pointer (some p) = p
