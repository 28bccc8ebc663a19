-- ===== src/Server/Service/Close.antt =====
-- server_onClose of Core/msgbus_server.cpp against the relation of services.
use message_bus_all_in_one_f.Common.{
  ℕ, ◌≡◌, ◌≢◌, refl, ap, ◌∙◌, true, false, some, List, [], ◌∷◌, inl, inr, ◌==◌, ==_refl, ==_iff,
  if◌then◌else◌, Option-cases,
}
use message_bus_all_in_one_f.Memory.{done}
use message_bus_all_in_one_f.Table.{Table, bytes_key, nat_key, lookup, insert, erase, lookup-erase}
use message_bus_all_in_one_f.Wire.Host.{Inet, ClientHost}
use message_bus_all_in_one_f.Server.{Server, Sock}
use message_bus_all_in_one_f.Server.Hosts.{remove_host_cases}
use message_bus_all_in_one_f.Server.Registry.{
  is_nil, check_register_client, find_client, server_on_close, unregister_client_from_service,
}
use message_bus_all_in_one_f.Server.Invariant.{IsValid}
use message_bus_all_in_one_f.Server.Invariant.Closing.{find_client-named, left_good}
use message_bus_all_in_one_f.Server.Service.{Serves, lookup-insert_other, lookup-erase_other}
use message_bus_all_in_one_f.Server.Service.Unregister.{unregister_lem}

module _ ⦃net : Inet⦄ where
  -- The maps between the two locked regions.
  abbrev dropped : Server → Sock → List ℕ → Table ℕ Sock → Server
  dropped s sock name socks = record s {
    active = if is_nil socks then erase name s.active else insert name socks s.active;
    tcp_services = erase sock.fd s.tcp_services;
  }

  server_on_close_found :
      (s : Server) (sock found : Sock) (name : List ℕ) (socks : Table ℕ Sock) (host : ClientHost)
      → find_client s.active sock.address ≡ some (name, found, socks)
      → (sock.fd == found.fd) ≡ true
      → lookup sock.fd s.tcp_services ≡ some host
      → server_on_close s sock
        ≡ done (unregister_client_from_service (dropped s sock name socks) name host)
  unfolding server_on_close
  server_on_close_found s sock found name socks host e same h =
      rw (e, server_on_close, same, h) refl

  -- Unregistering touches only the services.
  unregister_keeps :
      (s : Server) (name : List ℕ) (host : ClientHost)
      → ((unregister_client_from_service s name host).active ≡ s.active)
        × ((unregister_client_from_service s name host).tcp_services ≡ s.tcp_services)
  unfolding unregister_client_from_service
  unregister_keeps s name host = elim (Option-cases (lookup name s.services)) [
    | inl e ↦ rw (e, unregister_client_from_service) (refl, refl)
    | inr (hosts, e) ↦ elim (remove_host_cases host hosts) [
      | inl (r, l) ↦ rw (e, unregister_client_from_service, r) (refl, refl)
      | inr ([], r, removes) ↦ rw (e, unregister_client_from_service, r) (refl, refl)
      | inr (h ∷ rest, r, removes) ↦ rw (e, unregister_client_from_service, r) (refl, refl)
    ]
  ]

  dropped-IsValid :
      (s : Server) (sock found : Sock) (name : List ℕ) (socks : Table ℕ Sock)
      → find_client s.active sock.address ≡ some (name, found, socks)
      → IsValid s
      → IsValid (dropped s sock name socks)
  dropped-IsValid s sock found name socks e v = record {
    services_good = v.services_good;
    active_good =
        left_good name (find_client-named s.active sock.address name found socks v.active_good e)
          socks s.active v.active_good;
  }

  dropped_others :
      (s : Server) (sock : Sock) (name n : List ℕ) (socks : Table ℕ Sock)
      → n ≢ name
      → lookup n (dropped s sock name socks).active ≡ lookup n s.active
  dropped_others s sock name n [] ne = lookup-erase_other name n s.active ne
  dropped_others s sock name n (x ∷ socks) ne = lookup-insert_other name n (x ∷ socks) s.active ne

  unregistered_sock :
      (t : Server) (sock : Sock) (hosts : Table ℕ ClientHost)
      → t.tcp_services ≡ erase sock.fd hosts
      → check_register_client t sock ≡ false
  unfolding check_register_client
  unregistered_sock t sock hosts e =
      rw (e, lookup-erase sock.fd sock.fd hosts, ==_refl sock.fd) refl

  -- A connection that is lost is no longer registered, and the host that it registered cannot be
  -- found any more under the first name that holds the connection. No other name loses a
  -- connection: one that registered under two names stays among those of the second.
  pub server_on_close_lem :
      (s : Server) (sock found : Sock) (name : List ℕ) (socks : Table ℕ Sock) (host : ClientHost)
      → IsValid s
      → find_client s.active sock.address ≡ some (name, found, socks)
      → sock.fd ≡ found.fd
      → lookup sock.fd s.tcp_services ≡ some host
      → (t : Server) × (server_on_close s sock ≡ done t)
        × (check_register_client t sock ≡ false)
        × (¬ Serves t name host)
        × ((n : List ℕ) → n ≢ name → lookup n t.active ≡ lookup n s.active)
  server_on_close_lem s sock found name socks host v e same h =
      let d = dropped s sock name socks in
      let t = unregister_client_from_service d name host in
      let (active, tcp) = unregister_keeps d name host in
      (
        t,
        server_on_close_found s sock found name socks host e ((==_iff sock.fd found.fd).1 same) h,
        unregistered_sock t sock s.tcp_services tcp,
        (unregister_lem d name host (dropped-IsValid s sock found name socks e v)).0,
        λ n ne. ap (lookup n) active ∙ dropped_others s sock name n socks ne,
      )
