-- ===== src/Memory/Words.antt =====
-- Stores read back, and the byte swaps undo one another.
use message_bus_all_in_one_f.Common.{ℕ, ◌+◌, ◌*◌, ◌/◌, ◌%◌, ◌^◌, ◌<◌, ◌≡◌, ap, List, ◌++◌, arith}
use message_bus_all_in_one_f.Memory.{done, store16, store32, load16, load32, htons, htonl}

pub htons-lt : (x : ℕ) → htons x < 2 ^ 16
unfolding htons
htons-lt x = omega arith

pub htonl-lt : (x : ℕ) → htonl x < 2 ^ 32
unfolding htonl
htonl-lt x = omega arith

pub htons-htons : (x : ℕ) → x < 2 ^ 16 → htons (htons x) ≡ x
unfolding htons
htons-htons x h = omega arith

pub htonl-htonl : (x : ℕ) → x < 2 ^ 32 → htonl (htonl x) ≡ x
unfolding htonl
htonl-htonl x h = omega arith

pub bytes16 : (x : ℕ) → x < 2 ^ 16 → x % 256 + x / 256 % 256 * 256 ≡ x
bytes16 x h = omega arith

pub bytes32 :
    (x : ℕ)
    → x < 2 ^ 32
    → x % 256 + x / 256 % 256 * 256 + x / 65536 % 256 * 65536 + x / 16777216 % 256 * 16777216 ≡ x
bytes32 x h = omega arith

pub load16-store16 : (x : ℕ) (rest : List ℕ) → x < 2 ^ 16 → load16 (store16 x ++ rest) ≡ done x
unfolding load16
load16-store16 x rest h = ap done (bytes16 x h)

pub load32-store32 : (x : ℕ) (rest : List ℕ) → x < 2 ^ 32 → load32 (store32 x ++ rest) ≡ done x
unfolding load32
load32-store32 x rest h = ap done (bytes32 x h)

-- A number that was written in network order reads back in network order.
pub net16 : (x : ℕ) (rest : List ℕ) → load16 (store16 (htons x) ++ rest) ≡ done (htons x)
net16 x rest = load16-store16 (htons x) rest (htons-lt x)

pub net32 : (x : ℕ) (rest : List ℕ) → load32 (store32 (htonl x) ++ rest) ≡ done (htonl x)
net32 x rest = load32-store32 (htonl x) rest (htonl-lt x)
