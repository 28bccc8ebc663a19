-- ===== src/Future/Manager.antt =====
-- The manager's map.
use message_bus_all_in_one_f.Common.{
  ℕ, ◌^◌, ◌<◌, ◌≤◌, ◌≡◌, ◌≢◌, refl, Bool, true, Option, none, some, List, [], ◌∷◌, ◌++◌, length,
  length-append, arith, ◌==◌, get_elem?, All, if◌then◌else◌, Option-cases, inl, inr, ==_refl, sym,
  ap,
}
use message_bus_all_in_one_f.Memory.{done, aborted}
use message_bus_all_in_one_f.Table.{
  Table, lookup, insert, erase, lookup-insert, lookup-erase, insert-All, erase-All, nat_key,
}
use message_bus_all_in_one_f.Future.{
  NetFuture, new_future, is_bad, FutureMgr, next_id, safe_insert_future, safe_get_future,
  safe_remove_future, keep_good, safe_clear_bad_future,
}

-- The next id is never 0, which stands for "no future", and it is a uint32_t.
next_id_range : (id : ℕ) → (next_id id ≢ 0) × (next_id id < 2 ^ 32)
unfolding next_id
next_id_range id = ground arith

-- The map names only futures of the store, under ids that were given.
abbrev pub IsEntry : ℕ → ℕ × ℕ → Type 0
IsEntry stored (id, place) = (id ≢ 0) × (id < 2 ^ 32) × (place < stored)

pub record IsValid (m : FutureMgr) : Type 0 where
  pub entries : All (IsEntry (length m.futures)) m.container

IsEntry-mono : (a b : ℕ) (m : Table ℕ ℕ) → a ≤ b → All (IsEntry a) m → All (IsEntry b) m
IsEntry-mono a b [] h v = tt
IsEntry-mono a b ((id, place) ∷ m) h v = ((v.0.0, v.0.1, omega arith), IsEntry-mono a b m h v.1)

-- The manager after safe_insert_future.
abbrev inserted : FutureMgr → Bool → ℕ → FutureMgr
inserted m callback now = record {
  future_inc_id = next_id m.future_inc_id;
  container = insert (next_id m.future_inc_id) (length m.futures) m.container;
  futures = m.futures ++ (new_future callback now ∷ []);
}

-- safe_insert_future with a free next id: the id is a uint32_t and not 0, the map finds the new
-- future under it and every other id as before, and no other future is touched.
pub safe_insert_future_lem :
    (m : FutureMgr) (callback : Bool) (now : ℕ)
    → IsValid m
    → lookup (next_id m.future_inc_id) m.container ≡ none
    → (m' : FutureMgr) × (safe_insert_future m callback now
        ≡ done (m', next_id m.future_inc_id, length m.futures))
      × IsValid m'
      × (next_id m.future_inc_id ≢ 0)
      × (next_id m.future_inc_id < 2 ^ 32)
      × (m'.futures ≡ m.futures ++ (new_future callback now ∷ []))
      × ((id : ℕ)
          → lookup id m'.container ≡ (
              if id == next_id m.future_inc_id
              then some (length m.futures)
              else lookup id m.container))
unfolding safe_insert_future
safe_insert_future_lem m callback now v free =
    let id = next_id m.future_inc_id in
    let range = next_id_range m.future_inc_id in
    let grown = length-append m.futures (new_future callback now ∷ []) in
    (
      inserted m callback now,
      rw (free, safe_insert_future),
      record {
        entries =
            insert-All (IsEntry (length (inserted m callback now).futures)) id (length m.futures)
              m.container (range.0, range.1, omega (arith, grown))
              (IsEntry-mono (length m.futures) _ m.container (omega (arith, grown)) v.entries);
      },
      range.0,
      range.1,
      refl,
      λ other. lookup-insert id other (length m.futures) m.container,
    )

-- While the next id is still in the map, the assertion fails.
pub safe_insert_future_taken :
    (m : FutureMgr) (callback : Bool) (now place : ℕ)
    → lookup (next_id m.future_inc_id) m.container ≡ some place
    → safe_insert_future m callback now ≡ aborted
unfolding safe_insert_future
safe_insert_future_taken m callback now place taken = rw (taken, safe_insert_future)

get_missing :
    (m : FutureMgr) (id : ℕ) (erases : Bool)
    → lookup id m.container ≡ none
    → safe_get_future m id erases ≡ (m, none)
unfolding safe_get_future
get_missing m id erases e = rw (e, safe_get_future)

pub get_erased :
    (m : FutureMgr) (id place : ℕ)
    → lookup id m.container ≡ some place
    → safe_get_future m id true ≡ (record m { container = erase id m.container }, some place)
unfolding safe_get_future
get_erased m id place e = rw (e, safe_get_future)

erase-IsValid : (m : FutureMgr) (id : ℕ) → IsValid m → IsValid (safe_remove_future m id)
unfolding safe_remove_future
erase-IsValid m id v = record {
  entries = erase-All (IsEntry (length m.futures)) id m.container v.entries;
}

erased : (id : ℕ) (m : Table ℕ ℕ) → lookup id (erase id m) ≡ none
erased id m = rw (lookup-erase id id m, ==_refl id)

kept : (id other : ℕ) (m : Table ℕ ℕ) → other ≢ id → lookup other (erase id m) ≡ lookup other m
kept id other m ne = rw (lookup-erase id other m) (ground arith)

-- What safe_get_future with `erase` has done when it returns `r`.
abbrev pub Handed : FutureMgr → ℕ → FutureMgr × Option ℕ → Bool → Type 0
Handed m id r again =
    IsValid r.0
    × (r.1 ≡ lookup id m.container)
    × ((safe_get_future r.0 id again).1 ≡ none)
    × ((other : ℕ) → other ≢ id → lookup other r.0.container ≡ lookup other m.container)

-- A future is handed out for erasing once: safe_get_future with `erase` gives what the map holds
-- under the id, a second call gives nothing, and every other id is found as before.
pub safe_get_future_once :
    (m : FutureMgr) (id : ℕ) (again : Bool)
    → IsValid m
    → Handed m id (safe_get_future m id true) again
safe_get_future_once m id again v = elim (Option-cases (lookup id m.container)) [
  | inl e ↦
      rw (get_missing m id true e)
        (v, sym e, ap (λ (r : FutureMgr × Option ℕ). r.1) (get_missing m id again e), λ o ne. refl)
  | inr (place, e) ↦
      let m' = record m { container = erase id m.container } in
      rw (get_erased m id place e) (
        unfold safe_remove_future in erase-IsValid m id v,
        sym e,
        ap (λ (r : FutureMgr × Option ℕ). r.1) (get_missing m' id again (erased id m.container)),
        λ other ne. kept id other m.container ne,
      )
]

-- No key stands twice.
abbrev pub IsDistinct : Table ℕ ℕ → Type 0
IsDistinct [] = Unit {0}
IsDistinct ((k, v) ∷ m) = (lookup k m ≡ none) × IsDistinct m

-- What is left of an entry when the old futures are cleared.
abbrev pub unless_bad : List NetFuture → ℕ → Option ℕ → Option ℕ
unless_bad futures now none = none
unless_bad futures now (some place) = elim (get_elem? futures place) [
  | none ↦ some place
  | some f ↦ if is_bad f now then none else some place
]

keep_good_missing :
    (futures : List NetFuture) (now id : ℕ) (m : Table ℕ ℕ)
    → lookup id m ≡ none
    → lookup id (keep_good futures now m) ≡ none
unfolding keep_good lookup
keep_good_missing futures now id [] h = refl
keep_good_missing futures now id ((j, place) ∷ m) h =
    ground (arith, keep_good_missing futures now id m)

keep_good_lem :
    (futures : List NetFuture) (now id : ℕ) (m : Table ℕ ℕ)
    → IsDistinct m
    → lookup id (keep_good futures now m) ≡ unless_bad futures now (lookup id m)
unfolding keep_good lookup
keep_good_lem futures now id [] d = refl
keep_good_lem futures now id ((j, place) ∷ m) d = ground (
  arith,
  keep_good_lem futures now id m d.1,
  keep_good_missing futures now j m d.0,
  keep_good_missing futures now id m,
)

-- safe_clear_bad_future forgets the futures that have existed for more than 120 seconds, and no
-- others; every other id is found as before.
pub safe_clear_bad_future_lem :
    (m : FutureMgr) (now id : ℕ)
    → IsDistinct m.container
    → lookup id (safe_clear_bad_future m now).container
      ≡ unless_bad m.futures now (lookup id m.container)
unfolding safe_clear_bad_future
safe_clear_bad_future_lem m now id d = keep_good_lem m.futures now id m.container d
