-- ===== src/FastBuffer/Refines.antt =====
-- The buffer is a queue of bytes: each operation succeeds on a valid buffer, leaves it valid, and
-- does to the bytes in its window what the queue's operation does.
use mathlib.Core.List.{append-nil}
use message_bus_all_in_one_f.Common.{
  ℕ, ◌+◌, ◌-◌, ◌*◌, ◌/◌, ◌≤◌, ◌≡◌, refl, ap, sym, ◌∙◌, true, Bool-cases, inl, inr, List, [], ◌∷◌,
  ◌++◌, length, take, drop, arith, ltb, leb, drop-drop, drop_all, length-append, length-take,
}
use message_bus_all_in_one_f.Memory.{done}
use message_bus_all_in_one_f.FastBuffer.{
  FastBuffer, size, checked_size, resize, window, shrink, push_back, push_back_withoutdata, append,
  pop_front, shrink_size, down_size,
}
use message_bus_all_in_one_f.FastBuffer.Window.{window-append}
use message_bus_all_in_one_f.FastBuffer.Room.{
  IsValid, content, Keeps, length-content, moved, move_to_front_lem, length-moved, moved-Keeps,
  resized-Keeps, Keeps-trans, suc_ne_zero, Keeps-refl, ensurewritable_lem, counter-Keeps, le→leb,
}

-- Giving room back keeps the bytes.
shrink_lem :
    (b : FastBuffer) (n : ℕ) → IsValid b → (b' : FastBuffer) × (shrink b n ≡ done b') × Keeps b b'
unfolding shrink
shrink_lem b n v = elim (Bool-cases (ltb shrink_size (length b.innerdata))) [
  | inr small ↦ (b, rw small, Keeps-refl b v)
  | inl large ↦
      elim (Bool-cases (ltb (length b.innerdata / 8 * 7 + size b + n) (length b.innerdata))) [
        | inr used ↦ (record b { halfcounter = 0 }, rw (large, used), counter-Keeps b 0 v)
        | inl idle ↦ elim (Bool-cases (ltb 100 b.halfcounter)) [
          | inr early ↦ (
            record b { halfcounter = b.halfcounter + 1 },
            rw (large, idle, early),
            counter-Keeps b (b.halfcounter + 1) v,
          )
          | inl late ↦
              let b₀ = record b { halfcounter = 0 } in
              let k₀ : Keeps b b₀ = counter-Keeps b 0 v in
              let v₀ = k₀.valid in
              let k : Keeps b (moved b₀) = Keeps-trans b b₀ (moved b₀) k₀ (moved-Keeps b₀ v₀) in
              let n' = length (moved b₀).innerdata - down_size in
              (
                record (moved b₀) { innerdata = resize n' (moved b₀).innerdata },
                rw (large, idle, late, move_to_front_lem b₀ v₀),
                Keeps-trans b (moved b₀) _ k
                    (resized-Keeps (moved b₀) n' k.valid (ground (arith, length-moved b₀ v₀))),
              )
        ]
      ]
]

append_lem :
    (b : FastBuffer) (bytes : List ℕ)
    → IsValid b
    → b.writestart + length bytes ≤ length b.innerdata
    → (b' : FastBuffer) × (append b bytes ≡ done b')
      × IsValid b'
      × (content b' ≡ content b ++ bytes)
append_lem b bytes v room =
    let front = take b.writestart b.innerdata in
    let rest = drop (b.writestart + length bytes) b.innerdata in
    (
      record b { innerdata = front ++ (bytes ++ rest); writestart = b.writestart + length bytes },
      rw (le→leb (b.writestart + length bytes) (length b.innerdata) room),
      omega (
        arith,
        length-append front (bytes ++ rest),
        length-append bytes rest,
        length-take b.writestart b.innerdata,
      ),
      window-append b.readstart b.writestart b.innerdata bytes rest v.read_le_write v.write_le_size,
    )

-- `push_back` of any bytes succeeds on a valid buffer, and puts them behind those that are there.
pub push_back_lem :
    (b : FastBuffer) (bytes : List ℕ)
    → IsValid b
    → (b' : FastBuffer) × (push_back b bytes ≡ done b')
      × IsValid b'
      × (content b' ≡ content b ++ bytes)
unfolding push_back
push_back_lem b [] v = (b, refl, v, sym (append-nil (content b)))
push_back_lem b (x ∷ bytes) v =
    let n = length (x ∷ bytes) in
    let (b₁, e₁, k₁) = shrink_lem b n v in
    let (b₂, e₂, k₂, room) = ensurewritable_lem b₁ n k₁.valid in
    let (b₃, e₃, v₃, c₃) = append_lem b₂ (x ∷ bytes) k₂.valid room in
    (
      b₃,
      rw
          (
            suc_ne_zero (length bytes),
            e₁,
            le→leb b₁.writestart (length b₁.innerdata) k₁.valid.write_le_size,
            e₂,
          )
          e₃,
      v₃,
      c₃ ∙ ap (λ (c : List ℕ). c ++ (x ∷ bytes)) (k₂.same ∙ k₁.same),
    )

-- `pop_front` of no more than there is succeeds, and takes the oldest bytes away.
pub pop_front_lem :
    (b : FastBuffer) (n : ℕ)
    → IsValid b
    → n ≤ length (content b)
    → (b' : FastBuffer) × (pop_front b n ≡ done b') × IsValid b' × (content b' ≡ drop n (content b))
unfolding pop_front checked_size
pop_front_lem b n v h = elim (Bool-cases (leb b.writestart (b.readstart + n))) [
  | inl all ↦ (
    record b { readstart = 0; writestart = 0 },
    rw (le→leb b.readstart b.writestart v.read_le_write, fits, all),
    omega arith,
    sym (drop_all n (content b) (ground (arith, length-content b v))),
  )
  | inr some_left ↦ (
    record b { readstart = b.readstart + n },
    rw (le→leb b.readstart b.writestart v.read_le_write, fits, some_left),
    ground arith,
    sym (drop-drop n b.readstart (take b.writestart b.innerdata)),
  )
]
  where
    fits : leb n (size b) ≡ true
    fits = le→leb n (size b) (omega (arith, length-content b v))

-- Bytes that the caller wrote at the write index, into room that it made sure of, are behind the
-- others once they are counted.
pub push_back_withoutdata_lem :
    (b : FastBuffer) (bytes rest : List ℕ)
    → IsValid b
    → b.writestart + length bytes ≤ length b.innerdata
    → b.innerdata ≡ take b.writestart b.innerdata ++ (bytes ++ rest)
    → (b' : FastBuffer) × (push_back_withoutdata b (length bytes) ≡ done b')
      × IsValid b'
      × (content b' ≡ content b ++ bytes)
unfolding push_back_withoutdata
push_back_withoutdata_lem b bytes rest v room written = (
  record b { writestart = b.writestart + length bytes },
  rw (le→leb (length bytes + b.writestart) (length b.innerdata) (omega arith)),
  omega arith,
  ap (window b.readstart (b.writestart + length bytes)) written
      ∙ window-append b.readstart b.writestart b.innerdata bytes rest v.read_le_write
          v.write_le_size,
)
