-- ===== src/Server/Relay/Ascending.antt =====
-- The chosen connections of Core/msgbus_server.cpp are in the order of their addresses.
use message_bus_all_in_one_f.Common.{ℕ, ◌≤◌, ◌<◌, arith, ltb, ltb→lt, All, [], ◌∷◌, ◌==◌}
use message_bus_all_in_one_f.Table.{Table, bytes_key, nat_key, insert, insert-All}
use message_bus_all_in_one_f.Memory.Yields.{if-both}
use message_bus_all_in_one_f.Server.{Sock}

-- A table of connections in the order of their addresses, which holds none twice.
abbrev pub Ascending : Table ℕ Sock → Type 0
Ascending [] = Unit
Ascending ((k, v) ∷ m) = All (λ (entry : ℕ × Sock). k < entry.0) m × Ascending m

behind_too :
    (k j : ℕ) (m : Table ℕ Sock)
    → k ≤ j
    → All (λ (entry : ℕ × Sock). j < entry.0) m
    → All (λ (entry : ℕ × Sock). k < entry.0) m
behind_too k j [] h a = tt
behind_too k j (entry ∷ m) h a = (omega (arith, a.0), behind_too k j m h a.1)

pub insert-Ascending :
    (k : ℕ) (v : Sock) (m : Table ℕ Sock) → Ascending m → Ascending (insert k v m)
unfolding insert
insert-Ascending k v [] a = (tt, tt)
insert-Ascending k v ((j, w) ∷ m) (below, a) =
    if-both {A = Table ℕ Sock} Ascending (k == j) ((k, v) ∷ m) _
      (λ hit. (behind_too k j m (ground (arith, hit)) below, a))
      (λ miss.
        if-both {A = Table ℕ Sock} Ascending (ltb k j) ((k, v) ∷ (j, w) ∷ m) _
          (λ before.
            ((ltb→lt k j before, behind_too k j m (ground (arith, before)) below), (below, a)))
          (λ behind. (
            insert-All (λ (entry : ℕ × Sock). j < entry.0) k v m (ground (arith, miss, behind))
                below,
            insert-Ascending k v m a,
          )))
