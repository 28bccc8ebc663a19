-- ===== src/Server/Service/Register.antt =====
-- Registration in Core/msgbus_server.cpp against the relation of services.
use message_bus_all_in_one_f.Common.{
  ℕ, ◌≡◌, ◌≢◌, refl, ◌∙◌, false, Option, none, some, List, [], ◌∷◌, ◌++◌, ◌==◌, Option-cases,
  Bool-cases, inl, inr, arith,
}
use message_bus_all_in_one_f.Memory.{done}
use message_bus_all_in_one_f.Table.{bytes_key, nat_key, lookup, insert}
use message_bus_all_in_one_f.Wire.Host.{up_to_nul, Inet, ClientHost, host_ip, host_port, set_ip}
use message_bus_all_in_one_f.Wire.Host.Equal.{same_host_refl}
use message_bus_all_in_one_f.Server.{Server, Sock}
use message_bus_all_in_one_f.Server.Hosts.{here, update_host_cases, Updates-Has, append-Has}
use message_bus_all_in_one_f.Server.Registry.{
  update_host, is_nil, Registered, fill_address, register_existing, register_new, register_host,
  add_client,
}
use message_bus_all_in_one_f.Server.Registration.{register_named}
use message_bus_all_in_one_f.Server.Service.{
  Serves, insert_keeps, insert_new_keeps, lookup_inserted, Updates-keeps, append_keeps,
}

module _ ⦃net : Inet⦄ where
  pub fill_address_sock :
      (host : ClientHost) (sock : Sock)
      → ((fill_address host (some sock)).1 ≡ 0)
        × (host_port (fill_address host (some sock)).0 ≡ host_port host)
  unfolding fill_address host_port set_ip
  fill_address_sock host sock = elim (Bool-cases (is_nil (host_ip host))) [
    | inl e ↦ rw (e, fill_address) (refl, set_ip_port host sock.dest_ip)
    | inr e ↦ rw (e, fill_address) (refl, refl)
  ]
    where
      set_ip_port : (h : ClientHost) (text : List ℕ) → host_port (set_ip h text) ≡ host_port h
      set_ip_port h text = elim (Option-cases (net.pton (up_to_nul text))) [
        | inl e ↦ rw (set_ip, e)
        | inr (a, e) ↦ rw (set_ip, e)
      ]

  -- The state after a host was found in the list, and after it was put behind it.
  pub register_existing_known :
      (s : Server) (name : List ℕ) (hosts rest : List ClientHost) (sp_tcp : Option Sock)
      (host : ClientHost)
      → update_host host hosts ≡ some rest
      → register_existing s name hosts sp_tcp host
        ≡ done (record s { services = insert name rest s.services })
  unfolding register_existing
  register_existing_known s name hosts rest sp_tcp host e = rw (e, register_existing) refl

  -- The server with the hosts of one service replaced, and the client among its connections.
  abbrev pub with_client : Server → List ℕ → List ClientHost → Sock → ClientHost → Server
  with_client s name hosts sock host =
      add_client (record s { services = insert name hosts s.services }) name sock host

  register_existing_added :
      (s : Server) (name : List ℕ) (hosts : List ClientHost) (sock : Sock) (host : ClientHost)
      → update_host host hosts ≡ none
      → register_existing s name hosts (some sock) host
        ≡ done (with_client s name (hosts ++ (host ∷ [])) sock host)
  unfolding register_existing
  register_existing_added s name hosts sock host e = rw (e, register_existing) refl

  register_new_port :
      (s : Server) (name : List ℕ) (sock : Sock) (host : ClientHost) (ret : ℕ) (err : List ℕ)
      → (host_port host == 0) ≡ false
      → register_new s name (some sock) host ret err
        ≡ done (record {
          server = with_client s name (host ∷ []) sock host;
          ret_code = ret;
          errmsg = err;
        })
  unfolding register_new
  register_new_port s name sock host ret err e = rw (e, register_new) refl

  -- A service with hosts takes one more, or has it already.
  register_existing_lem :
      (s : Server) (name : List ℕ) (hosts : List ClientHost) (sock : Sock) (host : ClientHost)
      → lookup name s.services ≡ some hosts
      → (t : Server) × (register_existing s name hosts (some sock) host ≡ done t)
        × Serves t name host
        × ((n : List ℕ) (x : ClientHost) → Serves s n x → Serves t n x)
  unfolding add_client
  register_existing_lem s name hosts sock host e = elim (update_host_cases host hosts) [
    | inr (rest, u, updates) ↦ (
      record s { services = insert name rest s.services },
      register_existing_known s name hosts rest (some sock) host u,
      (rest, lookup_inserted name rest s.services, Updates-Has updates),
      λ n x m. insert_keeps s.services name hosts rest n x e (λ p h. Updates-keeps x updates h) m,
    )
    | inl (u, lacks) ↦ (
      with_client s name (hosts ++ (host ∷ [])) sock host,
      register_existing_added s name hosts sock host u,
      (hosts ++ (host ∷ []), lookup_inserted name _ s.services, append-Has host hosts),
      λ n x m. insert_keeps s.services name hosts _ n x e (λ p h. append_keeps x host hosts h) m,
    )
  ]

  pub register_host_existing :
      (s t : Server) (name : List ℕ) (hosts : List ClientHost) (sock : Sock)
      (requested : ClientHost)
      → lookup name s.services ≡ some hosts
      → register_existing s name hosts (some sock) (fill_address requested (some sock)).0 ≡ done t
      → register_host s name (some sock) requested
        ≡ done (record {
          server = t;
          ret_code = (fill_address requested (some sock)).1;
          errmsg = (fill_address requested (some sock)).2;
        })
  unfolding register_host
  register_host_existing s t name hosts sock requested e e' = rw (e, register_host, e') refl

  register_host_new :
      (s : Server) (name : List ℕ) (sock : Sock) (requested : ClientHost)
      → lookup name s.services ≡ none
      → register_host s name (some sock) requested
        ≡ register_new s name
            (some sock)
            (fill_address requested (some sock)).0
            (fill_address requested (some sock)).1
            (fill_address requested (some sock)).2
  unfolding register_host
  register_host_new s name sock requested e = rw (e, register_host) refl

  pub register_named_host :
      (s : Server) (sp_tcp : Option Sock) (name : List ℕ) (requested : ClientHost)
      → name ≢ []
      → register_named s sp_tcp name requested ≡ register_host s name sp_tcp requested
  unfolding register_named
  register_named_host s sp_tcp [] requested ne = absurd (ne refl)
  register_named_host s sp_tcp (c ∷ name) requested ne = refl

  -- A client with a name and a service port registers: the request succeeds, its host, with the
  -- peer's address where it gave none, can be found under the name, and no host that could be found
  -- before is lost.
  pub register_named_lem :
      (s : Server) (sock : Sock) (name : List ℕ) (requested : ClientHost)
      → name ≢ []
      → host_port requested ≢ 0
      → (r : Registered) × (register_named s (some sock) name requested ≡ done r)
        × (r.ret_code ≡ 0)
        × Serves r.server name (fill_address requested (some sock)).0
        × ((n : List ℕ) (x : ClientHost) → Serves s n x → Serves r.server n x)
  unfolding add_client
  register_named_lem s sock name requested ne port =
      let (host, ret, err) = fill_address requested (some sock) in
      let (ret_0, same_port) = fill_address_sock requested sock in
      let named = register_named_host s (some sock) name requested ne in
      elim (Option-cases (lookup name s.services)) [
        | inr (hosts, e) ↦
            let (t, e', serves, keeps) = register_existing_lem s name hosts sock host e in
            (
              record { server = t; ret_code = ret; errmsg = err },
              named ∙ register_host_existing s t name hosts sock requested e e',
              ret_0,
              serves,
              keeps,
            )
        | inl e ↦ (
          record {
            server = with_client s name (host ∷ []) sock host;
            ret_code = ret;
            errmsg = err;
          },
          named
              ∙ register_host_new s name sock requested e
              ∙ register_new_port s name sock host ret err (ground (arith, same_port)),
          ret_0,
          (host ∷ [], lookup_inserted name _ s.services, here (same_host_refl host)),
          λ n x m. insert_new_keeps s.services name _ n x e m,
        )
      ]
