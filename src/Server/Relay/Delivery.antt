-- ===== src/Server/Relay/Delivery.antt =====
-- msgbus_process_thread of Core/msgbus_server.cpp: which connections a queued message goes to.
use mathlib.Core.List.{append_assoc, append-nil}
use message_bus_all_in_one_f.Common.{
  ℕ, suc, ◌⊎◌, get_elem?, All, subst, ◌≡◌, refl, sym, ◌∙◌, Bool, true, false, Bool-cases, none,
  some, Option-cases, List, [], ◌∷◌, ◌++◌, inl, inr, ◌==◌, ==_refl, map,
}
use message_bus_all_in_one_f.Table.{
  Table, bytes_key, nat_key, lookup, insert, lookup-insert, insert-All,
}
use message_bus_all_in_one_f.Server.{Server, Sock, ReqTask, send}
use message_bus_all_in_one_f.Server.Names.{is_prefix_matching}
use message_bus_all_in_one_f.Server.Select.{select_best_sock}
use message_bus_all_in_one_f.Server.Registry.{is_some}
use message_bus_all_in_one_f.Server.Relay.{choose, send_all, deliver}
use message_bus_all_in_one_f.Server.Relay.Ascending.{Ascending, insert-Ascending}
use message_bus_all_in_one_f.Server.Relay.Among.{
  Among, select_best_sock-Among, select_best_sock-none,
}

module _ (matches : List ℕ → Bool) where
  choose_skip :
      (name : List ℕ) (socks : Table ℕ Sock) (active : Table (List ℕ) (Table ℕ Sock))
      (rands : ℕ → ℕ)
      → matches name ≡ false
      → choose matches ((name, socks) ∷ active) rands ≡ choose matches active (λ i. rands (suc i))
  unfolding choose
  choose_skip name socks active rands e = rw (e, choose) refl

  choose-none :
      (name : List ℕ) (socks : Table ℕ Sock) (active : Table (List ℕ) (Table ℕ Sock))
      (rands : ℕ → ℕ)
      → matches name ≡ true
      → select_best_sock (rands 0) socks ≡ none
      → choose matches ((name, socks) ∷ active) rands ≡ choose matches active (λ i. rands (suc i))
  unfolding choose
  choose-none name socks active rands e e' = rw (e, e', choose) refl

  choose-some :
      (name : List ℕ) (socks : Table ℕ Sock) (active : Table (List ℕ) (Table ℕ Sock))
      (rands : ℕ → ℕ) (sock : Sock)
      → matches name ≡ true
      → select_best_sock (rands 0) socks ≡ some sock
      → choose matches ((name, socks) ∷ active) rands
        ≡ insert sock.address sock (choose matches active (λ i. rands (suc i)))
  unfolding choose
  choose-some name socks active rands sock e e' = rw (e, e', choose) refl

  -- The connection that is drawn for a matching service, which is one of the service's.
  abbrev pub Drawn : Table (List ℕ) (Table ℕ Sock) → (ℕ → ℕ) → Sock → Type 0
  Drawn active rands sock =
      (i : ℕ) × (name : List ℕ) × (socks : Table ℕ Sock) × (get_elem? active i ≡ some (name, socks))
      × (matches name ≡ true)
      × (select_best_sock (rands i) socks ≡ some sock)
      × Among sock socks

  -- An entry under the address of a connection that is drawn.
  abbrev pub DrawnEntry : Table (List ℕ) (Table ℕ Sock) → (ℕ → ℕ) → ℕ × Sock → Type 0
  DrawnEntry active rands entry = (entry.1.address ≡ entry.0) × Drawn active rands entry.1

  -- Every service does not match, has no connection, or has one under its address in `chosen`.
  abbrev pub Served : Table (List ℕ) (Table ℕ Sock) → Table ℕ Sock → Type 0
  Served [] chosen = Unit
  Served ((name, socks) ∷ active) chosen =
      ((matches name ≡ false)
        ⊎ ((socks ≡ [])
            ⊎ ((sock : Sock) × Among sock socks × (is_some (lookup sock.address chosen) ≡ true))))
      × Served active chosen

  -- Who gets a message.
  pub record Recipients (active : Table (List ℕ) (Table ℕ Sock)) (rands : ℕ → ℕ)
      (chosen : Table ℕ Sock) : Type 0 where
    pub ascending : Ascending chosen
    pub drawn : All (DrawnEntry active rands) chosen
    pub served : Served active chosen

  DrawnEntry-more :
      (entry : List ℕ × Table ℕ Sock) (active : Table (List ℕ) (Table ℕ Sock)) (rands : ℕ → ℕ)
      (m : Table ℕ Sock)
      → All (DrawnEntry active (λ i. rands (suc i))) m
      → All (DrawnEntry (entry ∷ active) rands) m
  DrawnEntry-more entry active rands [] d = tt
  DrawnEntry-more entry active rands (e ∷ m) ((own, (i, name, socks, at, fits, b, among)), d) =
      ((own, (suc i, name, socks, at, fits, b, among)), DrawnEntry-more entry active rands m d)

  lookup_still :
      (k address : ℕ) (v : Sock) (m : Table ℕ Sock)
      → is_some (lookup address m) ≡ true
      → is_some (lookup address (insert k v m)) ≡ true
  lookup_still k address v m p = elim (Bool-cases (address == k)) [
    | inl hit ↦ rw (lookup-insert k address v m, hit) refl
    | inr miss ↦ rw (lookup-insert k address v m, miss) p
  ]

  Served-insert :
      (k : ℕ) (v : Sock) (active : Table (List ℕ) (Table ℕ Sock)) (m : Table ℕ Sock)
      → Served active m
      → Served active (insert k v m)
  Served-insert k v [] m s = tt
  Served-insert k v ((name, socks) ∷ active) m (here, s) = (
    elim here [
      | inl differs ↦ inl differs
      | inr (inl nobody) ↦ inr (inl nobody)
      | inr (inr (sock, among, there)) ↦
          inr (inr (sock, among, lookup_still k sock.address v m there))
    ],
    Served-insert k v active m s,
  )

  passed :
      (name : List ℕ) (socks : Table ℕ Sock) (active : Table (List ℕ) (Table ℕ Sock))
      (rands : ℕ → ℕ) (m : Table ℕ Sock)
      → (matches name ≡ false) ⊎ (socks ≡ [])
      → Recipients active (λ i. rands (suc i)) m
      → Recipients ((name, socks) ∷ active) rands m
  passed name socks active rands m why r = record {
    ascending = r.ascending;
    drawn = DrawnEntry-more (name, socks) active rands m r.drawn;
    served = (elim why [ inl differs ↦ inl differs | inr nobody ↦ inr (inl nobody) ], r.served);
  }

  added :
      (name : List ℕ) (socks : Table ℕ Sock) (active : Table (List ℕ) (Table ℕ Sock))
      (rands : ℕ → ℕ) (m : Table ℕ Sock) (best : Sock)
      → matches name ≡ true
      → select_best_sock (rands 0) socks ≡ some best
      → Recipients active (λ i. rands (suc i)) m
      → Recipients ((name, socks) ∷ active) rands (insert best.address best m)
  added name socks active rands m best fits b r =
      let among = select_best_sock-Among (rands 0) socks best b in
      record {
        ascending = insert-Ascending best.address best m r.ascending;
        drawn =
            insert-All (DrawnEntry ((name, socks) ∷ active) rands) best.address best m
              (refl, (0, name, socks, refl, fits, b, among))
              (DrawnEntry-more (name, socks) active rands m r.drawn);
        served = (
          inr (
              inr (
                best,
                among,
                rw (lookup-insert best.address best.address best m, ==_refl best.address) refl,
              )),
          Served-insert best.address best active m r.served,
        );
      }

  choose-Recipients :
      (active : Table (List ℕ) (Table ℕ Sock)) (rands : ℕ → ℕ)
      → Recipients active rands (choose matches active rands)
  unfolding choose
  choose-Recipients [] rands = record { ascending = tt; drawn = tt; served = tt }
  choose-Recipients ((name, socks) ∷ active) rands =
      let later = λ (i : ℕ). rands (suc i) in
      let rest = choose-Recipients active later in
      elim (Bool-cases (matches name)) [
        | inr differs ↦
            subst (Recipients ((name, socks) ∷ active) rands)
              (sym (choose_skip name socks active rands differs))
              (passed name socks active rands (choose matches active later) (inl differs) rest)
        | inl fits ↦ elim (Option-cases (select_best_sock (rands 0) socks)) [
          | inl b ↦
              subst (Recipients ((name, socks) ∷ active) rands)
                (sym (choose-none name socks active rands fits b))
                (passed name socks active rands (choose matches active later)
                  (inr (select_best_sock-none (rands 0) socks b)) rest)
          | inr (best, b) ↦
              subst (Recipients ((name, socks) ∷ active) rands)
                (sym (choose-some name socks active rands best fits b))
                (added name socks active rands (choose matches active later) best fits b rest)
        ]
      ]

-- What SendData is called with for each connection.
abbrev pub sends : Table ℕ Sock → List ℕ → List (Sock × List ℕ)
sends socks bytes = map (λ (entry : ℕ × Sock). (entry.1, bytes)) socks

send_all_lem :
    (s : Server) (socks : Table ℕ Sock) (bytes : List ℕ)
    → (send_all s socks bytes).sent ≡ s.sent ++ sends socks bytes
unfolding send_all
send_all_lem s [] bytes = sym (append-nil s.sent)
send_all_lem s ((address, sock) ∷ socks) bytes =
    send_all_lem (send s (some sock) bytes) socks bytes
    ∙ append_assoc s.sent ((sock, bytes) ∷ []) (sends socks bytes)

-- What is sent for a queued message is the message to each connection of a table, in the order of
-- their addresses, so that none gets it twice. Each of them was drawn for a service whose name matches
-- the destination, with the number of that service's place, and is one of its connections; and every
-- service that matches and has a connection has one in the table, whatever numbers are drawn.
pub deliver_lem :
    (s : Server) (task : ReqTask) (rands : ℕ → ℕ)
    → (chosen : Table ℕ Sock) × ((deliver s task rands).sent
        ≡ s.sent ++ sends chosen task.task_bytes)
      × Recipients (λ name. is_prefix_matching name task.client_name) s.active rands chosen
unfolding deliver
deliver_lem s task rands =
    let matches = λ (name : List ℕ). is_prefix_matching name task.client_name in
    (
      choose matches s.active rands,
      send_all_lem s (choose matches s.active rands) task.task_bytes,
      choose-Recipients matches s.active rands,
    )
