-- ===== src/Memory/Copy.antt =====
-- `strncpy` and `memcpy` against what they compute when they stay inside the object.
use message_bus_all_in_one_f.Common.{
  ℕ, zero, suc, ◌≤◌, ◌≡◌, refl, ap, List, [], ◌∷◌, ◌++◌, arith, length, length-append, ◌==◌, take,
  drop, drop-append, if◌then◌else◌, replicate, length-replicate,
}
use message_bus_all_in_one_f.Memory.{done, strncpy, memcpy}

-- A text in a field of `n` bytes: the bytes before the first NUL, filled up with NULs.
unfoldable pub padded : ℕ → List ℕ → List ℕ
padded zero s = []
padded (suc n) [] = replicate (suc n) 0
padded (suc n) (c ∷ s) = let rest = padded n s in if c == 0 then replicate (suc n) 0 else c ∷ rest

pub strncpy-eq : (n : ℕ) (s : List ℕ) → n ≤ length s → strncpy n s ≡ done (padded n s)
unfolding strncpy padded
strncpy-eq zero s h = refl
strncpy-eq (suc n) [] h = absurd (omega arith)
strncpy-eq (suc n) (c ∷ s) h = ground (arith, strncpy-eq n s)

pub length-padded : (n : ℕ) (s : List ℕ) → length (padded n s) ≡ n
unfolding padded
length-padded zero s = refl
length-padded (suc n) [] = length-replicate {A = ℕ} (suc n) 0
length-padded (suc n) (c ∷ s) = ground (arith, length-padded n s, length-replicate {A = ℕ} n 0)

padded-zeros : (n : ℕ) (rest : List ℕ) → padded n (replicate n 0 ++ rest) ≡ replicate n 0
unfolding padded
padded-zeros zero rest = refl
padded-zeros (suc n) rest = refl

pub padded-padded : (n : ℕ) (s rest : List ℕ) → padded n (padded n s ++ rest) ≡ padded n s
unfolding padded
padded-padded zero s rest = refl
padded-padded (suc n) [] rest = refl
padded-padded (suc n) (c ∷ s) rest = ground (arith, padded-padded n s rest)

-- A field that `strncpy` has written reads back as it is, whatever follows.
pub strncpy-padded : (n : ℕ) (s rest : List ℕ) → strncpy n (padded n s ++ rest) ≡ done (padded n s)
strncpy-padded n s rest =
    rw
      (strncpy-eq n (padded n s ++ rest)
        (omega (arith, length-append (padded n s) rest, length-padded n s)))
      (ap done (padded-padded n s rest))

pub memcpy-append : (s rest : List ℕ) → memcpy (length s) (s ++ rest) ≡ done s
unfolding memcpy
memcpy-append [] rest = refl
memcpy-append (c ∷ s) rest = rw (memcpy-append s rest)

-- `memcpy` of what lies inside the object.
pub memcpy-eq : (n : ℕ) (s : List ℕ) → n ≤ length s → memcpy n s ≡ done (take n s)
unfolding memcpy
memcpy-eq zero s h = refl
memcpy-eq (suc n) [] h = absurd (omega arith)
memcpy-eq (suc n) (c ∷ s) h = rw (memcpy-eq n s (omega arith))

pub memcpy-take :
    (n : ℕ) (s rest : List ℕ) → n ≤ length s → memcpy n (take n s ++ rest) ≡ done (take n s)
unfolding memcpy
memcpy-take zero s rest h = refl
memcpy-take (suc n) [] rest h = absurd (omega arith)
memcpy-take (suc n) (c ∷ s) rest h = rw (memcpy-take n s rest (omega arith))

-- A field of the wire format is stepped over by its size.
pub drop-padded : (n : ℕ) (s rest : List ℕ) → drop n (padded n s ++ rest) ≡ rest
drop-padded n s rest = let e = drop-append (padded n s) rest in rw length-padded at e
