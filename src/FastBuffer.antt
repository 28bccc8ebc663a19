-- ===== src/FastBuffer.antt =====
-- core::net::FastBuffer of Core/FastBuffer.h and Core/FastBuffer.cpp: a byte queue in one vector,
-- read at one index and written at another. The indices are `int`s and sizes are `size_t`s; they
-- are taken to stay below 2 ^ 31, as the code's own casts do. A failed `assert` is `aborted`, and a
-- copy past the vector's end is `wild`.
pub mod Window
pub mod Room
pub mod Refines
pub mod Queue
use message_bus_all_in_one_f.Common.{
  ℕ, ◌+◌, ◌-◌, ◌*◌, ◌/◌, Bool, List, [], ◌++◌, length, take, drop, replicate, ltb, leb, ◌==◌,
  if◌then◌else◌,
}
use message_bus_all_in_one_f.Memory.{Outcome, done, aborted, wild, ◌>>=◌}

-- DEFAULT_SIZE, GROW_SIZE, SHRINK_SIZE, DOWN_SIZE and MAX_SIZE.
abbrev pub default_size : ℕ
default_size = 128

abbrev pub grow_size : ℕ
grow_size = default_size * 16

abbrev pub shrink_size : ℕ
shrink_size = 1024 * default_size

abbrev pub down_size : ℕ
down_size = shrink_size / 16

abbrev pub max_size : ℕ
max_size = 1024 * 1024 / 4

pub record FastBuffer : Type 0 where
  pub readstart : ℕ
  pub writestart : ℕ
  pub innerdata : List ℕ
  pub halfcounter : ℕ

unfoldable pub new_buffer : FastBuffer
new_buffer = record {
  readstart = 0;
  writestart = 0;
  innerdata = replicate default_size 0;
  halfcounter = 0;
}

-- `size`, without its assertion, which `checked_size` makes.
abbrev pub size : FastBuffer → ℕ
size b = b.writestart - b.readstart

unfoldable pub checked_size : FastBuffer → Outcome ℕ
checked_size b = if leb b.readstart b.writestart then done (size b) else aborted

unfoldable pub is_empty : FastBuffer → Bool
is_empty b = b.readstart == b.writestart

-- `vector::resize(n, 0)`.
abbrev pub resize : ℕ → List ℕ → List ℕ
resize n xs = take n xs ++ replicate (n - length xs) 0

-- `std::copy` of `bytes` to the vector's index `at`.
abbrev pub copy_to : List ℕ → ℕ → List ℕ → Outcome (List ℕ)
copy_to xs at bytes =
    if leb (at + length bytes) (length xs)
    then done (take at xs ++ (bytes ++ drop (at + length bytes) xs))
    else wild

-- The bytes from the read index to the write index.
abbrev pub window : ℕ → ℕ → List ℕ → List ℕ
window r w xs = drop r (take w xs)

-- The valid bytes move to the front of the vector, and the indices with them.
unfoldable pub move_to_front : FastBuffer → Outcome FastBuffer
move_to_front b = do
  n ← checked_size b
  inner ← copy_to b.innerdata 0 (window b.readstart b.writestart b.innerdata)
  done (record b { readstart = 0; writestart = n; innerdata = inner })

-- The room is made by moving once the vector is over MAX_SIZE, and by growing before.
unfoldable pub ensurewritable : FastBuffer → ℕ → Outcome FastBuffer
ensurewritable b datasize =
    if ltb (length b.innerdata) (b.writestart + datasize)
    then (if ltb max_size (length b.innerdata)
        then (do
          b₁ ← move_to_front b
          done (
              if ltb (length b₁.innerdata) (datasize + size b₁)
              then record b₁ { innerdata = resize (size b₁ + datasize) b₁.innerdata }
              else b₁))
        else done
            (record b { innerdata = resize (b.writestart * 2 + datasize + grow_size) b.innerdata }))
    else done b

-- A vector over SHRINK_SIZE that has been nearly empty at more than a hundred pushes in a row gives
-- DOWN_SIZE bytes back. The test is the source's, with both subtractions brought to the other side.
unfoldable pub shrink : FastBuffer → ℕ → Outcome FastBuffer
shrink b datasize =
    if ltb shrink_size (length b.innerdata)
    then (if ltb (length b.innerdata / 8 * 7 + size b + datasize) (length b.innerdata)
        then (if ltb 100 b.halfcounter
            then (do
              b₁ ← move_to_front (record b { halfcounter = 0 })
              done
                  (record b₁ { innerdata = resize (length b₁.innerdata - down_size) b₁.innerdata }))
            else done (record b { halfcounter = b.halfcounter + 1 }))
        else done (record b { halfcounter = 0 }))
    else done b

-- `assert(m_writestart <= (int)m_innerdata.size())`.
abbrev pub check_writestart : FastBuffer → Outcome FastBuffer
check_writestart b = if leb b.writestart (length b.innerdata) then done b else aborted

abbrev append : FastBuffer → List ℕ → Outcome FastBuffer
append b bytes = do
  inner ← copy_to b.innerdata b.writestart bytes
  done (record b { innerdata = inner; writestart = b.writestart + length bytes })

unfoldable pub push_back : FastBuffer → List ℕ → Outcome FastBuffer
push_back b bytes = if length bytes == 0 then done b else do
  b₁ ← shrink b (length bytes)
  b₂ ← check_writestart b₁
  b₃ ← ensurewritable b₂ (length bytes)
  append b₃ bytes

-- For bytes that the caller has written at `writablebegin`.
unfoldable pub push_back_withoutdata : FastBuffer → ℕ → Outcome FastBuffer
push_back_withoutdata b datasize =
    if leb (datasize + b.writestart) (length b.innerdata)
    then done (record b { writestart = b.writestart + datasize })
    else aborted

unfoldable pub pop_front : FastBuffer → ℕ → Outcome FastBuffer
pop_front b datasize = do
  n ← checked_size b
  if leb datasize n
      then done (
          if leb b.writestart (b.readstart + datasize)
          then record b { readstart = 0; writestart = 0 }
          else record b { readstart = b.readstart + datasize })
      else aborted

unfoldable pub clear : FastBuffer → FastBuffer
clear b = record b { readstart = 0; writestart = 0 }
