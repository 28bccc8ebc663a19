-- ===== src/Server/Invariant.antt =====
-- What always holds of the server's maps.
pub mod Closing
use message_bus_all_in_one_f.Common.{
  ℕ, ◌≡◌, ◌≢◌, refl, sym, ◌∙◌, Option, none, some, List, [], ◌∷◌, ◌++◌, All, ◌==◌, if◌then◌else◌,
  Bool-cases, Option-cases, inl, inr, arith,
}
use message_bus_all_in_one_f.Memory.{Outcome}
use message_bus_all_in_one_f.Memory.Inside.{Ensures, Ensures-bind}
use message_bus_all_in_one_f.Table.{
  Table, bytes_key, nat_key, lookup, insert, erase, insert-All, erase-All, lookup-All,
}
use message_bus_all_in_one_f.Wire.Host.{Inet, ClientHost, no_host, host_port}
use message_bus_all_in_one_f.Server.{Server, Sock, with_sock}
use message_bus_all_in_one_f.Server.Hosts.{
  IsGood, IsDistinct, remove_host_cases, update_host_cases, Removes-IsDistinct, Updates-IsDistinct,
  append-IsDistinct, Updates,
}
use message_bus_all_in_one_f.Server.Registry.{
  is_nil, is_some, clients_of, add_client, unregister_client_from_service, Registered,
  register_existing, register_new, register_host, find_client, server_on_close,
}

module _ ⦃net : Inet⦄ where
  -- A service has a name, and hosts of which none stands twice.
  abbrev pub IsService : List ℕ × List ClientHost → Type 0
  IsService (name, hosts) = (name ≢ []) × IsGood hosts

  -- An entry of active_clients has a name and a connection.
  abbrev pub IsActive : List ℕ × Table ℕ Sock → Type 0
  IsActive (name, socks) = (name ≢ []) × (socks ≢ [])

  pub record IsValid (s : Server) : Type 0 where
    pub services_good : All IsService s.services
    pub active_good : All IsActive s.active

  insert-ne-nil :
      (address : ℕ) (sock : Sock) (socks : Table ℕ Sock) → insert address sock socks ≢ []
  unfolding insert
  insert-ne-nil address sock [] e = cc
  insert-ne-nil address sock (x ∷ socks) e = ground arith

  add_client-IsValid :
      (s : Server) (name : List ℕ) (sock : Sock) (host : ClientHost)
      → name ≢ []
      → IsValid s
      → IsValid (add_client s name sock host)
  unfolding add_client
  add_client-IsValid s name sock host ne v = record {
    services_good = v.services_good;
    active_good =
        insert-All IsActive name _ s.active
          (ne, insert-ne-nil sock.address sock (clients_of s.active name)) v.active_good;
  }

  with_services :
      (s : Server) (name : List ℕ) (hosts : List ClientHost)
      → name ≢ []
      → IsGood hosts
      → IsValid s
      → IsValid (record s { services = insert name hosts s.services })
  with_services s name hosts ne good v = record {
    services_good = insert-All IsService name hosts s.services (ne, good) v.services_good;
    active_good = v.active_good;
  }

  -- Taking a host out of a service keeps the maps good: a service that has no host left goes.
  pub unregister-IsValid :
      (s : Server) (name : List ℕ) (host : ClientHost)
      → IsValid s
      → IsValid (unregister_client_from_service s name host)
  unfolding unregister_client_from_service
  unregister-IsValid s name host v = elim (Option-cases (lookup name s.services)) [
    | inl e ↦ rw (e, unregister_client_from_service) v
    | inr (hosts, e) ↦
        let good = lookup-All IsService name hosts s.services v.services_good e in
        elim (remove_host_cases host hosts) [
          | inl (r, _) ↦ rw (e, unregister_client_from_service, r) v
          | inr ([], r, _) ↦
              rw (e, unregister_client_from_service, r)
                (record {
                  services_good = erase-All IsService name s.services v.services_good;
                  active_good = v.active_good;
                })
          | inr (h ∷ rest, r, removes) ↦
              rw (e, unregister_client_from_service, r)
                (with_services s name (h ∷ rest) good.0
                  (λ p. cc, Removes-IsDistinct removes good.1.1) v)
        ]
  ]

  on_sock :
      {A : Type 0} (P : A → Type 0) (f : Sock → Outcome A) (o : Option Sock)
      → ((sock : Sock) → Ensures P (f sock))
      → Ensures P (with_sock o f)
  on_sock P f none p = tt
  on_sock P f (some sock) p = p sock

  Updates-ne-nil :
      {host : ClientHost} {hosts rest : List ClientHost} → Updates host hosts rest → rest ≢ []
  Updates-ne-nil (Updates.hit e) p = cc
  Updates-ne-nil (Updates.miss e r) p = cc

  append-ne-nil : (host : ClientHost) (hosts : List ClientHost) → (hosts ++ (host ∷ [])) ≢ []
  append-ne-nil host [] p = cc
  append-ne-nil host (h ∷ hosts) p = cc

  register_existing-IsValid :
      (s : Server) (name : List ℕ) (hosts : List ClientHost) (sp_tcp : Option Sock)
      (host : ClientHost)
      → name ≢ []
      → IsDistinct hosts
      → IsValid s
      → Ensures IsValid (register_existing s name hosts sp_tcp host)
  unfolding register_existing
  register_existing-IsValid s name hosts sp_tcp host ne d v = elim (update_host_cases host hosts) [
    | inr (rest, e, updates) ↦
        rw (e, register_existing)
          (with_services s name rest ne (Updates-ne-nil updates, Updates-IsDistinct updates d) v)
    | inl (e, lacks) ↦
        rw (e, register_existing)
          (on_sock IsValid _ sp_tcp λ sock. add_client-IsValid _ name sock host ne (
            with_services s name (hosts ++ (host ∷ [])) ne
              (append-ne-nil host hosts, append-IsDistinct host hosts d lacks) v))
  ]

  -- The maps of a registration are good.
  abbrev pub GoodRegistered : Registered → Type 0
  GoodRegistered r = IsValid r.server

  register_new-IsValid :
      (s : Server) (name : List ℕ) (sp_tcp : Option Sock) (host : ClientHost) (ret : ℕ)
      (err : List ℕ)
      → name ≢ []
      → IsValid s
      → Ensures GoodRegistered (register_new s name sp_tcp host ret err)
  unfolding register_new
  register_new-IsValid s name none host ret err ne v = elim (Bool-cases (host_port host == 0)) [
    | inr e ↦ rw (e, register_new) tt
    | inl e ↦ elim (Bool-cases (is_some (lookup name s.active))) [
      | inl e' ↦ rw (e, e', register_new) v
      | inr e' ↦ rw (e, e', register_new) tt
    ]
  ]
  register_new-IsValid s name (some sock) host ret err ne v =
      elim (Bool-cases (host_port host == 0)) [
        | inr e ↦
            rw (e, register_new)
              (add_client-IsValid _ name sock host ne
                (with_services s name (host ∷ []) ne ((λ p. cc), (tt, tt)) v))
        | inl e ↦ elim (Bool-cases (is_some (lookup name s.active))) [
          | inl e' ↦ rw (e, e', register_new) v
          | inr e' ↦ rw (e, e', register_new) (add_client-IsValid s name sock host ne v)
        ]
      ]

  pub register_host-IsValid :
      (s : Server) (name : List ℕ) (sp_tcp : Option Sock) (requested : ClientHost)
      → name ≢ []
      → IsValid s
      → Ensures GoodRegistered (register_host s name sp_tcp requested)
  unfolding register_host
  register_host-IsValid s name sp_tcp requested ne v =
      elim (Option-cases (lookup name s.services)) [
        | inl e ↦ rw (e, register_host) (register_new-IsValid s name sp_tcp _ _ _ ne v)
        | inr (hosts, e) ↦
            rw (e, register_host)
              (Ensures-bind IsValid GoodRegistered (register_existing s name hosts sp_tcp _) _
                (register_existing-IsValid s name hosts sp_tcp _ ne
                  (lookup-All IsService name hosts s.services v.services_good e).1.1 v)
                (λ server valid. valid))
      ]
