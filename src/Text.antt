-- ===== src/Text.antt =====
-- `std::string` as a list of bytes: the order, the prefix test and the search that the program uses.
use message_bus_all_in_one_f.Common.{
  ℕ, suc, ◌≡◌, refl, Bool, true, false, ◌&&◌, Option, none, some, List, [], ◌∷◌, ◌++◌, ltb, ◌==◌,
  if◌then◌else◌, arith,
}
use mathlib.Core.Option

-- `left < right`, byte by byte.
unfoldable pub bytes_lt : List ℕ → List ℕ → Bool
bytes_lt [] [] = false
bytes_lt [] (y ∷ ys) = true
bytes_lt (x ∷ xs) [] = false
bytes_lt (x ∷ xs) (y ∷ ys) =
    let rest = bytes_lt xs ys in if ltb x y then true else if x == y then rest else false

-- Whether `text` begins with `prefix`.
unfoldable pub starts_with : List ℕ → List ℕ → Bool
starts_with [] text = true
starts_with (p ∷ prefix) [] = false
starts_with (p ∷ prefix) (c ∷ text) = p == c && starts_with prefix text

-- `text.find(needle)`: the first position, or `none` for npos.
unfoldable pub find : List ℕ → List ℕ → Option ℕ
find needle [] = if starts_with needle [] then some 0 else none
find needle (c ∷ text) =
    let rest = find needle text in
    if starts_with needle (c ∷ text) then some 0 else Option.map suc rest

pub starts_with→split :
    (prefix text : List ℕ)
    → starts_with prefix text ≡ true
    → (rest : List ℕ) × (text ≡ prefix ++ rest)
unfolding starts_with
starts_with→split [] text h = (text, refl)
starts_with→split (p ∷ prefix) [] h = ground arith
starts_with→split (p ∷ prefix) (c ∷ text) h =
    let (rest, e) = starts_with→split prefix text (ground arith) in (rest, ground arith)

pub starts_with-append : (prefix rest : List ℕ) → starts_with prefix (prefix ++ rest) ≡ true
unfolding starts_with
starts_with-append [] rest = refl
starts_with-append (p ∷ prefix) rest = ground (arith, starts_with-append prefix rest)

-- `text.find(needle) == 0`.
abbrev pub found_at_front : Option ℕ → Bool
found_at_front none = false
found_at_front (some i) = i == 0

-- The search finds the needle at the front exactly when the text begins with it.
pub found_at_front-find :
    (needle text : List ℕ) → found_at_front (find needle text) ≡ starts_with needle text
unfolding find
found_at_front-find needle [] = ground arith
found_at_front-find needle (c ∷ text) = ground (arith, Option_cases (find needle text))
  where
    Option_cases : (o : Option ℕ) → found_at_front (Option.map suc o) ≡ false
    Option_cases none = refl
    Option_cases (some i) = ground arith
