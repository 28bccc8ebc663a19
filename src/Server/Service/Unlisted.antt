-- ===== src/Server/Service/Unlisted.antt =====
-- A connection that is among those of no service, in Core/msgbus_server.cpp: the process thread sends
-- it nothing.
use mathlib.Core.List.{append_assoc, append-nil}
use mathlib.Core.Option.{some-injective}
use message_bus_all_in_one_f.Common.{
  ℕ, zero, suc, ◌≡◌, ◌≢◌, refl, sym, subst, ◌∙◌, none, some, Option-cases, List, [], ◌∷◌, ◌++◌, inl,
  inr, All, get_elem?, Bool,
}
use message_bus_all_in_one_f.Table.{Table, bytes_key, nat_key}
use message_bus_all_in_one_f.Server.{Server, Sock, ReqTask, BroadcastTask, send}
use message_bus_all_in_one_f.Server.Names.{is_prefix_matching}
use message_bus_all_in_one_f.Server.Select.{select_best_sock}
use message_bus_all_in_one_f.Server.Relay.{deliver, broadcast_to, broadcast}
use message_bus_all_in_one_f.Server.Relay.Among.{Among, first, later, select_best_sock-Among}
use message_bus_all_in_one_f.Server.Relay.Delivery.{DrawnEntry, sends, deliver_lem}

-- No service has the connection.
abbrev pub Unlisted : Sock → Table (List ℕ) (Table ℕ Sock) → Type 0
Unlisted sock active =
    All
      (λ (entry : List ℕ × Table ℕ Sock).
        All (λ (c : ℕ × Sock). c.1.address ≢ sock.address) entry.1)
      active

-- What was sent since `s` was not sent to the connection.
abbrev pub GetsNothing : Sock → Server → Server → Type 0
GetsNothing sock s s' =
    (new : List (Sock × List ℕ)) × (s'.sent ≡ s.sent ++ new)
    × All (λ (to : Sock × List ℕ). to.0.address ≢ sock.address) new

All-get_elem? {ℓ} :
    {A : Type ℓ} (P : A → Type 0) (xs : List A) (i : ℕ) (x : A)
    → get_elem? xs i ≡ some x
    → All P xs
    → P x
All-get_elem? P [] i x e a = absurd cc
All-get_elem? P (y ∷ xs) zero x e a = subst P (some-injective y x e) a.0
All-get_elem? P (y ∷ xs) (suc i) x e a = All-get_elem? P xs i x e a.1

All-Among :
    (P : Sock → Type 0) {best : Sock} {socks : Table ℕ Sock}
    → Among best socks
    → All (λ (c : ℕ × Sock). P c.1) socks
    → P best
All-Among P first a = a.0
All-Among P (later m) a = All-Among P m a.1

module _ (sock : Sock) where
  sends_elsewhere :
      (matches : List ℕ → Bool) (active : Table (List ℕ) (Table ℕ Sock)) (rands : ℕ → ℕ)
      (bytes : List ℕ) (chosen : Table ℕ Sock)
      → Unlisted sock active
      → All (DrawnEntry matches active rands) chosen
      → All (λ (to : Sock × List ℕ). to.0.address ≢ sock.address) (sends chosen bytes)
  sends_elsewhere matches active rands bytes [] u d = tt
  sends_elsewhere matches active rands bytes ((k, c) ∷ chosen) u d =
      let (own, (i, name, socks, at, fits, b, among)) = d.0 in
      (
        All-Among (λ (x : Sock). x.address ≢ sock.address) among
            (All-get_elem?
              (λ (entry : List ℕ × Table ℕ Sock).
                All (λ (c : ℕ × Sock). c.1.address ≢ sock.address) entry.1)
              active i (name, socks) at u),
        sends_elsewhere matches active rands bytes chosen u d.1,
      )

  pub deliver-GetsNothing :
      (s : Server) (task : ReqTask) (rands : ℕ → ℕ)
      → Unlisted sock s.active
      → GetsNothing sock s (deliver s task rands)
  deliver-GetsNothing s task rands u =
      let (chosen, e, r) = deliver_lem s task rands in
      (
        sends chosen task.task_bytes,
        e,
        sends_elsewhere (λ name. is_prefix_matching name task.client_name) s.active rands
            task.task_bytes chosen u r.drawn,
      )

  broadcast_to-none :
      (s : Server) (name : List ℕ) (socks : Table ℕ Sock) (active : Table (List ℕ) (Table ℕ Sock))
      (rands : ℕ → ℕ) (bytes : List ℕ)
      → select_best_sock (rands 0) socks ≡ none
      → broadcast_to s ((name, socks) ∷ active) rands bytes
        ≡ broadcast_to s active (λ i. rands (suc i)) bytes
  unfolding broadcast_to
  broadcast_to-none s name socks active rands bytes e = rw (e, broadcast_to) refl

  broadcast_to-some :
      (s : Server) (name : List ℕ) (socks : Table ℕ Sock) (active : Table (List ℕ) (Table ℕ Sock))
      (rands : ℕ → ℕ) (bytes : List ℕ) (best : Sock)
      → select_best_sock (rands 0) socks ≡ some best
      → broadcast_to s ((name, socks) ∷ active) rands bytes
        ≡ broadcast_to (send s (some best) bytes) active (λ i. rands (suc i)) bytes
  unfolding broadcast_to
  broadcast_to-some s name socks active rands bytes best e = rw (e, broadcast_to) refl

  broadcast_to-GetsNothing :
      (s : Server) (active : Table (List ℕ) (Table ℕ Sock)) (rands : ℕ → ℕ) (bytes : List ℕ)
      → Unlisted sock active
      → GetsNothing sock s (broadcast_to s active rands bytes)
  unfolding broadcast_to
  broadcast_to-GetsNothing s [] rands bytes u = ([], sym (append-nil s.sent), tt)
  broadcast_to-GetsNothing s ((name, socks) ∷ active) rands bytes u =
      elim (Option-cases (select_best_sock (rands 0) socks)) [
        | inl e ↦
            subst (GetsNothing sock s) (sym (broadcast_to-none s name socks active rands bytes e))
              (broadcast_to-GetsNothing s active (λ i. rands (suc i)) bytes u.1)
        | inr (best, e) ↦
            let (new, sent, elsewhere) =
              broadcast_to-GetsNothing (send s (some best) bytes) active (λ i. rands (suc i)) bytes
                u.1 in
            subst (GetsNothing sock s)
              (sym (broadcast_to-some s name socks active rands bytes best e))
              (
                (best, bytes) ∷ new,
                sent ∙ append_assoc s.sent ((best, bytes) ∷ []) new,
                (
                  All-Among (λ (x : Sock). x.address ≢ sock.address)
                      (select_best_sock-Among (rands 0) socks best e) u.0,
                  elsewhere,
                ),
              )
      ]

  pub broadcast-GetsNothing :
      (s : Server) (task : BroadcastTask) (rands : ℕ → ℕ)
      → Unlisted sock s.active
      → GetsNothing sock s (broadcast s task rands)
  unfolding broadcast
  broadcast-GetsNothing s task rands u = broadcast_to-GetsNothing s s.active rands task.task_bytes u
