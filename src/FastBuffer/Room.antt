-- ===== src/FastBuffer/Room.antt =====
-- A valid buffer and its bytes, and that ensurewritable keeps them and makes room.
use message_bus_all_in_one_f.Common.{
  ℕ, ◌+◌, ◌*◌, ◌≤◌, ◌≡◌, refl, ◌∙◌, true, false, Bool-cases, inl, inr, List, ◌++◌, length, drop,
  arith, ltb, leb, ◌==◌, suc, length-append, length-drop,
}
use message_bus_all_in_one_f.Memory.{done}
use message_bus_all_in_one_f.FastBuffer.{
  FastBuffer, size, checked_size, resize, window, move_to_front, ensurewritable, max_size,
  grow_size,
}
use message_bus_all_in_one_f.FastBuffer.Window.{
  length-window, window-resize, window_front, length-resize,
}

pub record IsValid (b : FastBuffer) : Type 0 where
  pub read_le_write : b.readstart ≤ b.writestart
  pub write_le_size : b.writestart ≤ length b.innerdata

-- The bytes that are still to be read, oldest first.
abbrev pub content : FastBuffer → List ℕ
content b = window b.readstart b.writestart b.innerdata

-- The buffer keeps its bytes and stays valid.
pub record Keeps (b b' : FastBuffer) : Type 0 where
  pub valid : IsValid b'
  pub same : content b' ≡ content b

pub length-content : (b : FastBuffer) → IsValid b → length (content b) ≡ size b
length-content b v = length-window b.readstart b.writestart b.innerdata v.write_le_size

-- What `move_to_front` leaves.
abbrev pub moved : FastBuffer → FastBuffer
moved b = record b {
  readstart = 0;
  writestart = size b;
  innerdata = content b ++ drop (length (content b)) b.innerdata;
}

pub move_to_front_lem : (b : FastBuffer) → IsValid b → move_to_front b ≡ done (moved b)
unfolding move_to_front checked_size
move_to_front_lem b v = ground (arith, length-content b v)

pub length-moved : (b : FastBuffer) → IsValid b → length (moved b).innerdata ≡ length b.innerdata
length-moved b v = omega (
  arith,
  length-append (content b) (drop (length (content b)) b.innerdata),
  length-drop (length (content b)) b.innerdata,
  length-content b v,
)

pub moved-Keeps : (b : FastBuffer) → IsValid b → Keeps b (moved b)
moved-Keeps b v = record {
  valid = omega (arith, length-moved b v);
  same =
      rw (← length-content b v) (window_front (content b) (drop (length (content b)) b.innerdata));
}

pub resized-Keeps :
    (b : FastBuffer) (n : ℕ)
    → IsValid b
    → b.writestart ≤ n
    → Keeps b (record b { innerdata = resize n b.innerdata })
resized-Keeps b n v h = record {
  valid = omega (arith, length-resize n b.innerdata);
  same = window-resize b.readstart b.writestart n b.innerdata v.write_le_size h;
}

pub Keeps-trans : (a b c : FastBuffer) → Keeps a b → Keeps b c → Keeps a c
Keeps-trans a b c k l = record { valid = l.valid; same = l.same ∙ k.same }

pub le→leb : (a b : ℕ) → a ≤ b → leb a b ≡ true
le→leb a b h = ground arith

pub suc_ne_zero : (n : ℕ) → (suc n == 0) ≡ false
suc_ne_zero n = ground arith

pub Keeps-refl : (b : FastBuffer) → IsValid b → Keeps b b
Keeps-refl b v = record { valid = v; same = refl }

-- `ensurewritable` after the move.
moved_room :
    (b : FastBuffer) (n : ℕ)
    → IsValid b
    → ltb (length b.innerdata) (b.writestart + n) ≡ true
    → ltb max_size (length b.innerdata) ≡ true
    → (b' : FastBuffer) × (ensurewritable b n ≡ done b')
      × Keeps b b'
      × (b'.writestart + n ≤ length b'.innerdata)
unfolding ensurewritable
moved_room b n v full large =
    elim (Bool-cases (ltb (length (moved b).innerdata) (n + size (moved b)))) [
      | inl short ↦ (
        record (moved b) { innerdata = resize (size (moved b) + n) (moved b).innerdata },
        rw (full, large, move_to_front_lem b v, short),
        Keeps-trans b (moved b) _ k
            (resized-Keeps (moved b) (size (moved b) + n) k.valid (omega arith)),
        omega (arith, length-resize (size (moved b) + n) (moved b).innerdata),
      )
      | inr roomy ↦ (moved b, rw (full, large, move_to_front_lem b v, roomy), k, ground arith)
    ]
  where
    k : Keeps b (moved b)
    k = moved-Keeps b v

-- `ensurewritable(n)` keeps the bytes and leaves room for `n` more behind them, whether it has the
-- room, grows the vector, or moves the bytes to the front.
pub ensurewritable_lem :
    (b : FastBuffer) (n : ℕ)
    → IsValid b
    → (b' : FastBuffer) × (ensurewritable b n ≡ done b')
      × Keeps b b'
      × (b'.writestart + n ≤ length b'.innerdata)
unfolding ensurewritable
ensurewritable_lem b n v = elim (Bool-cases (ltb (length b.innerdata) (b.writestart + n))) [
  | inr roomy ↦ (b, rw roomy, Keeps-refl b v, ground arith)
  | inl full ↦ elim (Bool-cases (ltb max_size (length b.innerdata))) [
    | inl large ↦ moved_room b n v full large
    | inr small ↦ (
      record b { innerdata = resize (b.writestart * 2 + n + grow_size) b.innerdata },
      rw (full, small),
      resized-Keeps b (b.writestart * 2 + n + grow_size) v (omega arith),
      omega (arith, length-resize (b.writestart * 2 + n + grow_size) b.innerdata),
    )
  ]
]

pub counter-Keeps : (b : FastBuffer) (k : ℕ) → IsValid b → Keeps b (record b { halfcounter = k })
counter-Keeps b k v = record { valid = omega arith; same = refl }
