-- ===== src/ClientPool/Turns.antt =====
-- Core/TcpClientPool.cpp: every address of the pool has its counter, and its connections take turns.
use message_bus_all_in_one_f.Common.{
  ℕ, zero, suc, ◌+◌, ◌%◌, ◌^◌, ◌<◌, ◌≡◌, refl, sym, ap, ◌∙◌, Bool, Bool-cases, Option, none, some,
  Option-cases, List, [], ◌∷◌, ◌++◌, length, get_elem?, ◌⊎◌, inl, inr, arith, subst,
}
use message_bus_all_in_one_f.Memory.{Outcome, done}
use message_bus_all_in_one_f.Table.{Table, beq_refl, lookup, insert, lookup-insert}
use message_bus_all_in_one_f.ClientPool.{
  Dest, dest_eq, dest_key, PoolSock, ClientPool, new_pool, as_size, get_tcp_sock, push_sock,
  add_tcp_sock, remove_tcp_sock, without_sock,
}

-- Every address with an entry has a counter.
abbrev pub IsCounted : ClientPool → Type 0
IsCounted p =
    (dest : Dest) (conns : List PoolSock)
    → lookup dest p.tcpclient_pool ≡ some conns
    → (counter : ℕ) × (lookup dest p.select_counter ≡ some counter)

-- A write to either map keeps what the other addresses have.
counter_insert :
    (dest d : Dest) (n c : ℕ) (m : Table Dest ℕ)
    → lookup d m ≡ some c
    → (counter : ℕ) × (lookup d (insert dest n m) ≡ some counter)
counter_insert dest d n c m e = elim (Bool-cases (dest_eq d dest)) [
  | inl same ↦ (n, lookup-insert dest d n m ∙ rw same)
  | inr differs ↦ (c, lookup-insert dest d n m ∙ rw differs e)
]

entry_insert :
    (dest d : Dest) (conns found : List PoolSock) (m : Table Dest (List PoolSock))
    → lookup d (insert dest conns m) ≡ some found
    → (d ≡ dest) ⊎ (lookup d m ≡ some found)
entry_insert dest d conns found m e = elim (Bool-cases (dest_eq d dest)) [
  | inl same ↦ inl ((dest_key.beq_iff d dest).0 same)
  | inr differs ↦ inr (rw differs at (sym (lookup-insert dest d conns m) ∙ e))
]

-- New connections for an address that has an entry.
replace-IsCounted :
    (p : ClientPool) (dest : Dest) (conns old : List PoolSock)
    → lookup dest p.tcpclient_pool ≡ some old
    → IsCounted p
    → IsCounted (record p { tcpclient_pool = insert dest conns p.tcpclient_pool })
replace-IsCounted p dest conns old e v d found e' =
    elim (entry_insert dest d conns found p.tcpclient_pool e') [
      | inl same ↦ v d old (ap (λ k. lookup k p.tcpclient_pool) same ∙ e)
      | inr there ↦ v d found there
    ]

pub push_sock-IsCounted :
    (p : ClientPool) (dest : Dest) (s : PoolSock) → IsCounted p → IsCounted (push_sock p dest s)
unfolding push_sock
push_sock-IsCounted p dest s v = elim (Option-cases (lookup dest p.tcpclient_pool)) [
  | inr (conns, e) ↦ rw (e, push_sock) (replace-IsCounted p dest (conns ++ (s ∷ [])) conns e v)
  | inl e ↦
      rw (e, push_sock)
        λ d found e'. elim (entry_insert dest d (s ∷ []) found p.tcpclient_pool e') [
          | inl same ↦ (
            0,
            ap (λ k. lookup k (insert dest 0 p.select_counter)) same
                ∙ lookup-insert dest dest 0 p.select_counter
                ∙ rw (beq_refl dest),
          )
          | inr there ↦
              let (c, e'') = v d found there in counter_insert dest d 0 c p.select_counter e''
        ]
]

add_tcp_sock-IsCounted :
    (p : ClientPool) (o : Option PoolSock) → IsCounted p → IsCounted (add_tcp_sock p o).0
unfolding add_tcp_sock
add_tcp_sock-IsCounted p none v = v
add_tcp_sock-IsCounted p (some s) v = elim (Option-cases s.dest) [
  | inl e ↦ rw (e, add_tcp_sock) v
  | inr (dest, e) ↦ rw (e, add_tcp_sock) (push_sock-IsCounted p dest s v)
]

remove_tcp_sock-IsCounted :
    (closed : ℕ → Bool) (p : ClientPool) (o : Option PoolSock)
    → IsCounted p
    → IsCounted (remove_tcp_sock closed p o)
unfolding remove_tcp_sock
remove_tcp_sock-IsCounted closed p none v = v
remove_tcp_sock-IsCounted closed p (some s) v = elim (Option-cases s.dest) [
  | inl e ↦ rw (e, remove_tcp_sock) v
  | inr (dest, e) ↦ elim (Option-cases (lookup dest p.tcpclient_pool)) [
    | inl e' ↦ rw (e, remove_tcp_sock, e') v
    | inr (conns, e') ↦
        rw (e, remove_tcp_sock, e')
          (replace-IsCounted p dest (without_sock closed s conns) conns e' v)
  ]
]

-- The pool after a connection was handed out.
abbrev pub turned : ClientPool → Dest → ℕ → ClientPool
turned p dest counter = record p {
  select_counter = insert dest ((counter + 1) % 2 ^ 32) p.select_counter;
}

turned-IsCounted :
    (p : ClientPool) (dest : Dest) (counter : ℕ) → IsCounted p → IsCounted (turned p dest counter)
turned-IsCounted p dest counter v d conns e =
    let (c, e') = v d conns e in
    counter_insert dest d ((counter + 1) % 2 ^ 32) c p.select_counter e'

get_elem?_mod :
    (i : ℕ) (c : PoolSock) (conns : List PoolSock)
    → (conn : PoolSock) × (get_elem? (c ∷ conns) (i % length (c ∷ conns)) ≡ some conn)
get_elem?_mod i c conns = inside (c ∷ conns) (i % length (c ∷ conns)) (omega arith)
  where
    inside :
        (xs : List PoolSock) (k : ℕ) → k < length xs → (x : PoolSock) × (get_elem? xs k ≡ some x)
    inside [] k h = absurd (omega arith)
    inside (x ∷ xs) zero h = (x, refl)
    inside (x ∷ xs) (suc k) h = inside xs k (omega arith)

get_missing :
    (p : ClientPool) (dest : Dest)
    → lookup dest p.tcpclient_pool ≡ none
    → get_tcp_sock p dest ≡ done (p, none)
unfolding get_tcp_sock
get_missing p dest e = rw (e, get_tcp_sock) refl

get_empty :
    (p : ClientPool) (dest : Dest)
    → lookup dest p.tcpclient_pool ≡ some []
    → get_tcp_sock p dest ≡ done (p, none)
unfolding get_tcp_sock
get_empty p dest e = rw (e, get_tcp_sock) refl

get_turn :
    (p : ClientPool) (dest : Dest) (c : PoolSock) (conns : List PoolSock) (counter : ℕ)
    → lookup dest p.tcpclient_pool ≡ some (c ∷ conns)
    → lookup dest p.select_counter ≡ some counter
    → get_tcp_sock p dest
      ≡ done (turned p dest counter, get_elem? (c ∷ conns) (as_size counter % length (c ∷ conns)))
unfolding get_tcp_sock
get_turn p dest c conns counter e e' = rw (e, get_tcp_sock, e') refl

-- What a lookup of the pool gives: nothing, and the pool as it was, where the address has no
-- connection; else the connection whose turn it is, and the next turn.
pub data Turn (p : ClientPool) (dest : Dest) : Outcome (ClientPool × Option PoolSock) → Type 0 where
  nobody :
      (lookup dest p.tcpclient_pool ≡ none) ⊎ (lookup dest p.tcpclient_pool ≡ some [])
      → Turn p dest (done (p, none))
  somebody :
      (conns : List PoolSock) (counter : ℕ) (conn : PoolSock)
      → lookup dest p.tcpclient_pool ≡ some conns
      → lookup dest p.select_counter ≡ some counter
      → get_elem? conns (as_size counter % length conns) ≡ some conn
      → Turn p dest (done (turned p dest counter, some conn))

pub get_tcp_sock-Turn :
    (p : ClientPool) (dest : Dest) → IsCounted p → Turn p dest (get_tcp_sock p dest)
get_tcp_sock-Turn p dest v = elim (Option-cases (lookup dest p.tcpclient_pool)) [
  | inl e ↦ rw (get_missing p dest e) (nobody (inl e))
  | inr ([], e) ↦ rw (get_empty p dest e) (nobody (inr e))
  | inr (c ∷ conns, e) ↦
      let (counter, e') = v dest (c ∷ conns) e in
      let (conn, at) = get_elem?_mod (as_size counter) c conns in
      rw (get_turn p dest c conns counter e e', at) (somebody (c ∷ conns) counter conn e e' at)
]

-- The calls of the pool's users.
pub data PoolStep : ClientPool → ClientPool → Type 0 where
  add : {p : ClientPool} (o : Option PoolSock) → PoolStep p (add_tcp_sock p o).0
  remove :
      {p : ClientPool} (closed : ℕ → Bool) (o : Option PoolSock)
      → PoolStep p (remove_tcp_sock closed p o)
  get :
      {p q : ClientPool} (dest : Dest) (o : Option PoolSock)
      → get_tcp_sock p dest ≡ done (q, o)
      → PoolStep p q

pub data PoolReach : ClientPool → Type 0 where
  start : PoolReach new_pool
  after : {p q : ClientPool} → PoolReach p → PoolStep p q → PoolReach q

new_pool-IsCounted : IsCounted new_pool
unfolding lookup
new_pool-IsCounted dest conns e = cc

same_pool : (x y : ClientPool × Option PoolSock) → done x ≡ done y → x.0 ≡ y.0
same_pool x y e = cc

pub get-IsCounted :
    (p : ClientPool) (dest : Dest) (r : Outcome (ClientPool × Option PoolSock)) (q : ClientPool)
    (o : Option PoolSock)
    → Turn p dest r
    → r ≡ done (q, o)
    → IsCounted p
    → IsCounted q
get-IsCounted p dest r q o (nobody x) e v = subst IsCounted (same_pool (p, none) (q, o) e) v
get-IsCounted p dest r q o (somebody conns counter conn x y z) e v =
    subst IsCounted (same_pool (turned p dest counter, some conn) (q, o) e)
      (turned-IsCounted p dest counter v)

PoolReach-IsCounted : (p : ClientPool) → PoolReach p → IsCounted p
PoolReach-IsCounted p start = new_pool-IsCounted
PoolReach-IsCounted p (after {p = q} r (add o)) =
    add_tcp_sock-IsCounted q o (PoolReach-IsCounted q r)
PoolReach-IsCounted p (after {p = q} r (remove closed o)) =
    remove_tcp_sock-IsCounted closed q o (PoolReach-IsCounted q r)
PoolReach-IsCounted p (after {p = q} r (get dest o e)) =
    get-IsCounted q dest (get_tcp_sock q dest) p o
      (get_tcp_sock-Turn q dest (PoolReach-IsCounted q r)) e (PoolReach-IsCounted q r)

-- In every state that the pool reaches from its start, asking for a connection to an address fails
-- no assertion: it gives none where the address has none, and else the one at the counter's place
-- modulo their number, and the counter goes on by one.
pub PoolReach-Turn :
    (p : ClientPool) (dest : Dest) → PoolReach p → Turn p dest (get_tcp_sock p dest)
PoolReach-Turn p dest r = get_tcp_sock-Turn p dest (PoolReach-IsCounted p r)
