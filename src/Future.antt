-- ===== src/Future.antt =====
-- NetFuture and FutureMgr of Core/NetMsgBusFuture.hpp. A future is shared by its waiter and the
-- manager's map, so futures live in a store and are named by their place in it. The time is an
-- argument of the calls that read the clock.
pub mod Waiting
pub mod Manager
use message_bus_all_in_one_f.Common.{
  ℕ, ◌+◌, ◌-◌, ◌%◌, ◌^◌, ◌*◌, Bool, true, false, Option, none, some, List, [], ◌∷◌, ◌++◌, length,
  ltb, ◌==◌, get_elem?, if◌then◌else◌,
}
use message_bus_all_in_one_f.Memory.{Outcome, done, aborted}
use message_bus_all_in_one_f.Table.{Table, Key, nat_key, lookup, insert, erase}

pub record NetFuture : Type 0 where
  pub ready : Bool
  pub has_error : Bool
  pub rsp_content : List ℕ
  pub generated_time : ℕ
  pub has_callback : Bool

-- NetFuture(cb).
abbrev pub new_future : Bool → ℕ → NetFuture
new_future callback now = record {
  ready = false;
  has_error = false;
  rsp_content = [];
  generated_time = now;
  has_callback = callback;
}

-- The future after set_result, and whether its callback is called.
unfoldable pub set_result : NetFuture → List ℕ → NetFuture × Bool
set_result f content = (record f { rsp_content = content; ready = true }, f.has_callback)

unfoldable pub set_error : NetFuture → List ℕ → NetFuture × Bool
unfolding set_result
set_error f errinfo = set_result (record f { has_error = true }) errinfo

-- MAX_EXIST_TIME.
abbrev pub max_exist_time : ℕ
max_exist_time = 120

-- The clock does not run backwards.
unfoldable pub is_bad : NetFuture → ℕ → Bool
is_bad f now = ltb max_exist_time (now - f.generated_time)

-- The second `get`, which does not wait.
unfoldable pub get_now : NetFuture → Option (List ℕ)
get_now f = if f.ready then some f.rsp_content else none

-- How a wait on the condition ends: by the deadline, or woken while `ready_` has a value.
pub data Wake : Type 0 where
  timed_out : Wake
  woken : Bool → Wake

-- The loop of `join`, for the value of `ready_` before each wait; `none` while it still waits.
unfoldable pub join_loop : Bool → List Wake → Option Bool
join_loop true wakes = some true
join_loop false [] = none
join_loop false (timed_out ∷ wakes) = some false
join_loop false (woken ready ∷ wakes) = join_loop ready wakes

-- FutureMgr: the last id given, the map from ids to futures, and the store of futures.
pub record FutureMgr : Type 0 where
  pub future_inc_id : ℕ
  pub container : Table ℕ ℕ
  pub futures : List NetFuture

abbrev pub new_manager : FutureMgr
new_manager = record { future_inc_id = 0; container = []; futures = [] }

-- `++future_inc_id_` in uint32_t, and once more if that gives 0.
unfoldable pub next_id : ℕ → ℕ
next_id id = let next = (id + 1) % 2 ^ 32 in if next == 0 then (next + 1) % 2 ^ 32 else next

-- safe_insert_future: the id and the place of the new future; the assertion fails where the map
-- still holds the id.
unfoldable pub safe_insert_future : FutureMgr → Bool → ℕ → Outcome (FutureMgr × ℕ × ℕ)
safe_insert_future m callback now =
    let id = next_id m.future_inc_id in
    let place = length m.futures in
    elim (lookup id m.container) [
      | some old ↦ aborted
      | none ↦ done (
        record {
          future_inc_id = id;
          container = insert id place m.container;
          futures = m.futures ++ (new_future callback now ∷ []);
        },
        id,
        place,
      )
    ]

-- safe_get_future: the place of the future, or `none` for a null pointer.
unfoldable pub safe_get_future : FutureMgr → ℕ → Bool → FutureMgr × Option ℕ
safe_get_future m id erases = elim (lookup id m.container) [
  | none ↦ (m, none)
  | some place ↦ ((if erases then record m { container = erase id m.container } else m), some place)
]

unfoldable pub safe_remove_future : FutureMgr → ℕ → FutureMgr
safe_remove_future m id = record m { container = erase id m.container }

-- The loop of safe_clear_bad_future.
unfoldable pub keep_good : List NetFuture → ℕ → Table ℕ ℕ → Table ℕ ℕ
keep_good futures now [] = []
keep_good futures now ((id, place) ∷ m) =
    let rest = keep_good futures now m in
    elim (get_elem? futures place) [
      | none ↦ (id, place) ∷ rest
      | some f ↦ if is_bad f now then rest else (id, place) ∷ rest
    ]

unfoldable pub safe_clear_bad_future : FutureMgr → ℕ → FutureMgr
safe_clear_bad_future m now = record m { container = keep_good m.futures now m.container }
