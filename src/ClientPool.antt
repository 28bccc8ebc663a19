-- ===== src/ClientPool.antt =====
-- TcpClientPool of Core/TcpClientPool.cpp: the connections to each address, which of them the next
-- message takes, and CreateTcpSock, for which each attempt to connect is an argument.
pub mod Turns
pub mod Create
use message_bus_all_in_one_f.Common.{
  zero, suc, not, ℕ, ◌+◌, ◌-◌, ◌%◌, ◌^◌, Bool, true, false, ◌&&◌, ◌||◌, Option, none, some, List,
  [], ◌∷◌, ◌++◌, length, get_elem?, ◌==◌, ltb, if◌then◌else◌, bytes_eq, ◌≡◌, ◌↔◌, ==_iff,
  bytes_eq→eq, bytes_eq_refl, arith, ap, ==_refl,
}
use message_bus_all_in_one_f.Memory.{Outcome, done, aborted, wild, ◌>>=◌}
use message_bus_all_in_one_f.Text.{bytes_lt}
use message_bus_all_in_one_f.Table.{Table, Key, lookup, insert}

-- An address's text and a port.
abbrev pub Dest : Type 0
Dest = List ℕ × ℕ

abbrev pub dest_eq : Dest → Dest → Bool
dest_eq a b = bytes_eq a.0 b.0 && a.1 == b.1

abbrev pub dest_lt : Dest → Dest → Bool
dest_lt a b = bytes_lt a.0 b.0 || (bytes_eq a.0 b.0 && ltb a.1 b.1)

pub dest_eq_iff : (a b : Dest) → (dest_eq a b ≡ true) ↔ (a ≡ b)
dest_eq_iff a b = (λ e. both a b (ground arith) (ground arith), λ e. rw e (both_refl b))
  where
    both : (a b : Dest) → bytes_eq a.0 b.0 ≡ true → (a.1 == b.1) ≡ true → a ≡ b
    both a b e e' = cc (bytes_eq→eq a.0 b.0 e, (==_iff a.1 b.1).0 e')

    both_refl : (d : Dest) → dest_eq d d ≡ true
    both_refl d = rw (bytes_eq_refl d.0, ==_refl d.1)

instance abbrev pub dest_key : Key Dest
dest_key = record { beq = dest_eq; blt = dest_lt; beq_iff = dest_eq_iff }

-- A connection: the address of its object, its descriptor, and what GetDestHost finds.
pub record PoolSock : Type 0 where
  pub address : ℕ
  pub fd : ℕ
  pub dest : Option Dest

pub record ClientPool : Type 0 where
  -- m_tcpclient_pool and m_select_counter, the counters as bit patterns of an int.
  pub tcpclient_pool : Table Dest (List PoolSock)
  pub select_counter : Table Dest ℕ

abbrev pub new_pool : ClientPool
new_pool = record { tcpclient_pool = []; select_counter = [] }

-- The conversion of an int to size_t.
abbrev pub as_size : ℕ → ℕ
as_size counter = if ltb counter (2 ^ 31) then counter else counter + (2 ^ 64 - 2 ^ 32)

-- GetTcpSockByDestHost: the counter goes on by one; as an int it is converted to size_t for the
-- remainder, which repeats its sign.
unfoldable pub get_tcp_sock : ClientPool → Dest → Outcome (ClientPool × Option PoolSock)
get_tcp_sock p dest = elim (lookup dest p.tcpclient_pool) [
  | none ↦ done (p, none)
  | some [] ↦ done (p, none)
  | some (c ∷ conns) ↦ elim (lookup dest p.select_counter) [
    | none ↦ aborted
    | some counter ↦ done (
      record p { select_counter = insert dest ((counter + 1) % 2 ^ 32) p.select_counter },
      get_elem? (c ∷ conns) (as_size counter % length (c ∷ conns)),
    )
  ]
]

-- The connection put behind the others of its address.
unfoldable pub push_sock : ClientPool → Dest → PoolSock → ClientPool
push_sock p dest s = elim (lookup dest p.tcpclient_pool) [
  | some conns ↦ record p { tcpclient_pool = insert dest (conns ++ (s ∷ [])) p.tcpclient_pool }
  | none ↦ record p {
    tcpclient_pool = insert dest (s ∷ []) p.tcpclient_pool;
    select_counter = insert dest 0 p.select_counter;
  }
]

-- AddTcpSock.
unfoldable pub add_tcp_sock : ClientPool → Option PoolSock → ClientPool × Bool
add_tcp_sock p none = (p, false)
add_tcp_sock p (some s) = elim s.dest [ none ↦ (p, false) | some dest ↦ (push_sock p dest s, true) ]

-- IsSameTcpSock of Core/TcpSock.h; `closed` is what IsClosed says of an object at the time.
unfoldable pub is_same_tcp_sock : (ℕ → Bool) → PoolSock → PoolSock → Bool
is_same_tcp_sock closed left right =
    if closed left.address || closed right.address then false else left.fd == right.fd

-- The loop of RemoveTcpSock.
unfoldable pub without_sock : (ℕ → Bool) → PoolSock → List PoolSock → List PoolSock
without_sock closed s [] = []
without_sock closed s (c ∷ conns) =
    let rest = without_sock closed s conns in if is_same_tcp_sock closed s c then rest else c ∷ rest

-- RemoveTcpSock: an address keeps its entry and its counter when its last connection goes.
unfoldable pub remove_tcp_sock : (ℕ → Bool) → ClientPool → Option PoolSock → ClientPool
remove_tcp_sock closed p none = p
remove_tcp_sock closed p (some s) = elim s.dest [
  | none ↦ p
  | some dest ↦ elim (lookup dest p.tcpclient_pool) [
    | none ↦ p
    | some conns ↦ record p {
      tcpclient_pool = insert dest (without_sock closed s conns) p.tcpclient_pool;
    }
  ]
]

-- An attempt to connect: the socket where Connect succeeds, whether the event loop takes it, and
-- what the callback `postcb` answers.
pub record Attempt : Type 0 where
  pub connects : Option PoolSock
  pub in_loop : Bool
  pub posted : Bool

-- The loop of CreateTcpSock, with the sockets that `postcb` was called on and its
-- answers.
unfoldable pub create_loop :
    ℕ → ClientPool → Dest → List Attempt → ClientPool × Bool × List (PoolSock × Bool)
create_loop zero p dest attempts = (p, true, [])
create_loop (suc n) p dest [] = (p, false, [])
create_loop (suc n) p dest (a ∷ attempts) =
    let more = λ (s : PoolSock). create_loop n (push_sock p dest s) dest attempts in
    elim a.connects [
      | none ↦ (p, false, [])
      | some s ↦
          if not a.in_loop
          then (p, false, [])
          else if not a.posted
          then (p, false, (s, false) ∷ [])
          else (let (q, ok, posted) = more s in (q, ok, (s, true) ∷ posted))
    ]

-- CreateTcpSock: the connections that are missing for `num` of them.
unfoldable pub create_tcp_sock :
    ClientPool → Dest → ℕ → List Attempt → Outcome (ClientPool × Bool × List (PoolSock × Bool))
create_tcp_sock p dest num attempts = elim (lookup dest p.tcpclient_pool) [
  | none ↦ done (create_loop num p dest attempts)
  | some conns ↦ elim (lookup dest p.select_counter) [
    | none ↦ aborted
    | some k ↦ done (create_loop (num - length conns) p dest attempts)
  ]
]
