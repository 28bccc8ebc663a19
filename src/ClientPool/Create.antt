-- ===== src/ClientPool/Create.antt =====
-- CreateTcpSock fails no assertion and keeps a counter for each address.
use message_bus_all_in_one_f.Common.{
  ℕ, zero, suc, ◌-◌, Bool, false, not, refl, Option, some, Option-cases, inl, inr, List, [], ◌∷◌,
  length,
}
use message_bus_all_in_one_f.Memory.{Outcome}
use message_bus_all_in_one_f.Memory.Yields.{Yields, if-both}
use message_bus_all_in_one_f.Table.{lookup}
use message_bus_all_in_one_f.ClientPool.{
  Dest, dest_key, PoolSock, ClientPool, Attempt, push_sock, get_tcp_sock, create_loop,
  create_tcp_sock,
}
use message_bus_all_in_one_f.ClientPool.Turns.{
  IsCounted, push_sock-IsCounted, Turn, nobody, somebody, get_tcp_sock-Turn, get-IsCounted, turned,
}

pub get_tcp_sock-Yields :
    (p : ClientPool) (dest : Dest)
    → IsCounted p
    → Yields (λ (r : ClientPool × Option PoolSock). IsCounted r.0) (get_tcp_sock p dest)
get_tcp_sock-Yields p dest v = given (get_tcp_sock p dest) (get_tcp_sock-Turn p dest v) v
  where
    given :
        (m : Outcome (ClientPool × Option PoolSock))
        → Turn p dest m
        → IsCounted p
        → Yields (λ (r : ClientPool × Option PoolSock). IsCounted r.0) m
    given m (nobody x) v = v
    given m (somebody conns counter conn x y z) v =
        get-IsCounted p dest _ (turned p dest counter) (some conn)
          (somebody conns counter conn x y z) refl v

-- The pool after the attempts.
Counted : ClientPool × Bool × List (PoolSock × Bool) → Type 0
Counted r = IsCounted r.0

create_loop-Counted :
    (n : ℕ) (p : ClientPool) (dest : Dest) (attempts : List Attempt)
    → IsCounted p
    → Counted (create_loop n p dest attempts)
unfolding create_loop Counted
create_loop-Counted zero p dest attempts v = v
create_loop-Counted (suc n) p dest [] v = v
create_loop-Counted (suc n) p dest (a ∷ attempts) v = elim (Option-cases a.connects) [
  | inl e ↦ rw (e, create_loop) v
  | inr (s, e) ↦
      rw (e, create_loop)
        (if-both {A = ClientPool × Bool × List (PoolSock × Bool)} (λ r. IsCounted r.0)
          (not a.in_loop) (p, false, []) _ (λ h. v)
          (λ h.
            if-both {A = ClientPool × Bool × List (PoolSock × Bool)} (λ r. IsCounted r.0)
              (not a.posted) (p, false, (s, false) ∷ []) _ (λ g. v)
              (λ g.
                create_loop-Counted n (push_sock p dest s) dest attempts
                  (push_sock-IsCounted p dest s v))))
]

pub create_tcp_sock-Yields :
    (p : ClientPool) (dest : Dest) (num : ℕ) (attempts : List Attempt)
    → IsCounted p
    → Yields
        (λ (r : ClientPool × Bool × List (PoolSock × Bool)). IsCounted r.0)
        (create_tcp_sock p dest num attempts)
unfolding create_tcp_sock Counted
create_tcp_sock-Yields p dest num attempts v = elim (Option-cases (lookup dest p.tcpclient_pool)) [
  | inl e ↦ rw (e, create_tcp_sock) (create_loop-Counted num p dest attempts v)
  | inr (conns, e) ↦
      let (k, e') = v dest conns e in
      rw (e, create_tcp_sock)
        (rw (e', create_tcp_sock) (create_loop-Counted (num - length conns) p dest attempts v))
]
