-- ===== src/Server/Select.antt =====
-- msgbus_select_best_client of Core/msgbus_server.cpp, for hosts and for connections. `rand` is the
-- system's: its value is an argument, below RAND_MAX + 1 = 2 ^ 31. The double arithmetic is exact
-- at the sizes that occur, so its truncation is the quotient.
use message_bus_all_in_one_f.Common.{
  ℕ, zero, suc, ◌+◌, ◌*◌, ◌/◌, ◌%◌, ◌^◌, ◌<◌, ◌≤◌, ◌≡◌, refl, sym, ◌∙◌, ap, Option, none, some,
  List, [], ◌∷◌, length, get_elem?, arith, inl, inr, Option-cases, map,
}
use message_bus_all_in_one_f.Memory.{Outcome, done, wild}
use message_bus_all_in_one_f.Table.{Table}
use message_bus_all_in_one_f.Wire.Host.{ClientHost}
use message_bus_all_in_one_f.Server.{Sock}

-- (int)((rand()/(RAND_MAX + 1.0))*(container.size())).
unfoldable pub randselect : ℕ → ℕ → ℕ
randselect rand size = rand * size / 2 ^ 31

-- `*(pos + randselect)`.
unfoldable pub select_best_host : ℕ → List ClientHost → Outcome (Option ClientHost)
select_best_host rand [] = done none
select_best_host rand (h ∷ hosts) =
    elim (get_elem? (h ∷ hosts) (randselect rand (length (h ∷ hosts)))) [
      | none ↦ wild
      | some host ↦ done (some host)
    ]

-- The loop over the connections: `count` is randselect + 1, and the test `randselect-- < 0` is that
-- it has come down to 0.
unfoldable pub pick : ℕ → Table ℕ Sock → Option Sock
pick count [] = none
pick zero ((address, sock) ∷ socks) = some sock
pick (suc count) ((address, sock) ∷ socks) = pick count socks

-- If the loop ends without a choice, the first connection stays chosen.
unfoldable pub select_best_sock : ℕ → Table ℕ Sock → Option Sock
select_best_sock rand [] = none
select_best_sock rand ((address, sock) ∷ socks) =
    elim (pick (suc (randselect rand (length ((address, sock) ∷ socks))))
      ((address, sock) ∷ socks)) [ none ↦ some sock | some best ↦ some best ]

pub randselect-lt : (rand size : ℕ) → rand < 2 ^ 31 → 0 < size → randselect rand size < size
unfolding randselect
randselect-lt rand size hr hs =
    let h : (rand + 1) * size ≤ 2 ^ 31 * size = grind arith in omega arith

get_elem?_inside {ℓ} :
    {A : Type ℓ} (xs : List A) (i : ℕ) → i < length xs → (x : A) × (get_elem? xs i ≡ some x)
get_elem?_inside [] i h = absurd (omega arith)
get_elem?_inside (x ∷ xs) zero h = (x, refl)
get_elem?_inside (x ∷ xs) (suc i) h = get_elem?_inside xs i (omega arith)

-- The place is the one of `size` equal parts of the numbers below 2 ^ 31 that `rand` lies in.
randselect_part :
    (rand size : ℕ)
    → (randselect rand size * 2 ^ 31 ≤ rand * size)
      × (rand * size < (randselect rand size + 1) * 2 ^ 31)
unfolding randselect
randselect_part rand size = (omega arith, omega arith)

-- A service with hosts answers with one of them for every number below 2 ^ 31 that is drawn: these
-- numbers are cut into as many equal parts as there are hosts, and the host is the one at the place of
-- the part that the number lies in. The place depends on the number and on how many hosts there are,
-- and not on their states, though the comments at kServerBusyState give ratios for these.
pub select_best_host_lem :
    (rand : ℕ) (hosts : List ClientHost)
    → rand < 2 ^ 31
    → 0 < length hosts
    → (i : ℕ) × (host : ClientHost) × (i * 2 ^ 31 ≤ rand * length hosts)
      × (rand * length hosts < (i + 1) * 2 ^ 31)
      × (get_elem? hosts i ≡ some host)
      × (select_best_host rand hosts ≡ done (some host))
unfolding select_best_host
select_best_host_lem rand [] hr h = absurd (omega arith)
select_best_host_lem rand (x ∷ hosts) hr h =
    let n = length (x ∷ hosts) in
    let (host, e) = get_elem?_inside (x ∷ hosts) (randselect rand n) (randselect-lt rand n hr h) in
    let (low, high) = randselect_part rand n in
    (randselect rand n, host, low, high, e, rw (e, select_best_host))

get_elem?-none {ℓ} : {A : Type ℓ} (xs : List A) (i : ℕ) → get_elem? xs i ≡ none → length xs ≤ i
get_elem?-none [] i h = omega arith
get_elem?-none (x ∷ xs) zero h = cc
get_elem?-none (x ∷ xs) (suc i) h = omega (arith, get_elem?-none xs i h)

get_elem?-some {ℓ} :
    {A : Type ℓ} (xs : List A) (i : ℕ) (x : A) → get_elem? xs i ≡ some x → i < length xs
get_elem?-some [] i x h = cc
get_elem?-some (y ∷ xs) zero x h = omega arith
get_elem?-some (y ∷ xs) (suc i) x h = omega (arith, get_elem?-some xs i x h)

length-map {ℓ κ} :
    {A : Type ℓ} {B : Type κ} (xs : List A) (f : A → B) → length (map f xs) ≡ length xs
length-map [] f = refl
length-map (x ∷ xs) f = ap suc (length-map xs f)

pick-get_elem? :
    (count : ℕ) (socks : Table ℕ Sock)
    → pick count socks ≡ get_elem? (map (λ (e : ℕ × Sock). e.1) socks) count
unfolding pick
pick-get_elem? count [] = refl
pick-get_elem? zero ((a, sock) ∷ socks) = refl
pick-get_elem? (suc count) ((a, sock) ∷ socks) = pick-get_elem? count socks

mod_last : (k n : ℕ) → k < n → n ≤ suc k → (k + 1) % n ≡ 0
mod_last k n h l = grind arith

mod_before : (k n : ℕ) → suc k < n → (k + 1) % n ≡ suc k
mod_before k n h = grind arith

-- Among connections the choice is one place further on, and the last random value gives the first.
pub select_best_sock_lem :
    (rand : ℕ) (socks : Table ℕ Sock)
    → rand < 2 ^ 31
    → 0 < length socks
    → (sock : Sock) × (select_best_sock rand socks ≡ some sock)
      × (get_elem?
            (map (λ (e : ℕ × Sock). e.1) socks)
            ((randselect rand (length socks) + 1) % length socks)
          ≡ some sock)
unfolding select_best_sock
select_best_sock_lem rand [] hr h = absurd (omega arith)
select_best_sock_lem rand ((a, s) ∷ socks) hr h = elim (Option-cases (pick (suc k) all)) [
  | inl past ↦ (
    s,
    rw (past, select_best_sock),
    rw (wraps (get_elem?-none names (suc k) (sym (pick-get_elem? (suc k) all) ∙ past))),
  )
  | inr (best, found) ↦
      let at = sym (pick-get_elem? (suc k) all) ∙ found in
      (best, rw (found, select_best_sock), rw (inside (get_elem?-some names (suc k) best at)) at)
]
  where
    all : Table ℕ Sock
    all = (a, s) ∷ socks

    names : List Sock
    names = map (λ (e : ℕ × Sock). e.1) all

    k : ℕ
    k = randselect rand (length all)

    k_lt : k < length all
    k_lt = randselect-lt rand (length all) hr h

    same_length : length names ≡ length all
    same_length = length-map all (λ e. e.1)

    wraps : length names ≤ suc k → (k + 1) % length all ≡ 0
    wraps h = mod_last k (length all) k_lt (omega (arith, same_length))

    inside : suc k < length names → (k + 1) % length all ≡ suc k
    inside h = mod_before k (length all) (omega (arith, same_length))
