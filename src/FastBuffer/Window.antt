-- ===== src/FastBuffer/Window.antt =====
-- What the window between the two indices shows after the vector was written, resized or moved.
use mathlib.Core.List.{append_assoc}
use message_bus_all_in_one_f.Common.{
  ℕ, ◌+◌, ◌-◌, ◌≤◌, ◌≡◌, ap, ◌∙◌, List, ◌++◌, length, take, drop, replicate, arith, take_le,
  drop_le, take-take, take-append, length-take, length-drop, length-append, length-replicate,
}
use message_bus_all_in_one_f.FastBuffer.{resize, window}

pub length-window : (r w : ℕ) (xs : List ℕ) → w ≤ length xs → length (window r w xs) ≡ w - r
length-window r w xs h = omega (arith, length-drop r (take w xs), length-take w xs)

-- Bytes written at the end of the window.
pub window-append :
    (r w : ℕ) (xs bytes rest : List ℕ)
    → r ≤ w
    → w ≤ length xs
    → window r (w + length bytes) (take w xs ++ (bytes ++ rest)) ≡ window r w xs ++ bytes
window-append r w xs bytes rest hr hw =
    let front = take w xs in
    let n : w + length bytes ≡ length (front ++ bytes) =
      omega (arith, length-append front bytes, length-take w xs) in
    rw (← append_assoc front bytes rest, n, take-append (front ++ bytes) rest)
      (drop_le r front bytes (omega (arith, length-take w xs)))

-- The vector cut or filled up behind the window.
pub window-resize :
    (r w n : ℕ) (xs : List ℕ) → w ≤ length xs → w ≤ n → window r w (resize n xs) ≡ window r w xs
window-resize r w n xs hl hn =
    ap (drop r) (take_le w (take n xs) _ (omega (arith, length-take n xs)) ∙ take-take w n xs hn)

-- The window moved to the front.
pub window_front : (bytes rest : List ℕ) → window 0 (length bytes) (bytes ++ rest) ≡ bytes
window_front bytes rest = take-append bytes rest

pub length-resize : (n : ℕ) (xs : List ℕ) → length (resize n xs) ≡ n
length-resize n xs = omega (
  arith,
  length-append (take n xs) (replicate (n - length xs) 0),
  length-take n xs,
  length-replicate {A = ℕ} (n - length xs) 0,
)
