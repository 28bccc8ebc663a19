-- ===== src/Server/Registry.antt =====
-- How the maps of Core/msgbus_server.cpp change: the parts of process_register_req,
-- process_unregister_req, unregister_client_from_service and server_onClose under the lock.
use Prim.Native.String.{String}
use Prim.Native.Char.{code}
use message_bus_all_in_one_f.Common.{
  ℕ, Bool, true, false, not, Option, none, some, List, [], ◌∷◌, ◌++◌, ◌==◌, if◌then◌else◌,
}
use message_bus_all_in_one_f.Memory.{Outcome, done, aborted, ◌>>=◌}
use message_bus_all_in_one_f.Table.{Table, bytes_key, nat_key, lookup, insert, erase}
use message_bus_all_in_one_f.Wire.Host.{
  Inet, ClientHost, no_host, same_host, host_ip, host_port, host_state, set_ip, set_state,
}
use message_bus_all_in_one_f.Server.{Server, Sock, with_sock}

-- The bytes of a text literal.
abbrev pub codes : String → List ℕ
codes String.[] = []
codes (String.◌∷◌ c s) = code c ∷ codes s

abbrev pub is_nil {ℓ} : {A : Type ℓ} → List A → Bool
is_nil [] = true
is_nil (x ∷ xs) = false

abbrev pub is_some {ℓ} : {A : Type ℓ} → Option A → Bool
is_some none = false
is_some (some a) = true

-- check_register_client.
unfoldable pub check_register_client : Server → Sock → Bool
check_register_client s sock = is_some (lookup sock.fd s.tcp_services)

-- `active_clients[service_name]`, which makes an empty entry where there is none.
abbrev pub clients_of : Table (List ℕ) (Table ℕ Sock) → List ℕ → Table ℕ Sock
clients_of active name = elim (lookup name active) [ none ↦ [] | some socks ↦ socks ]

-- `active_clients[service_name][sp_tcp.get()] = sp_tcp; tcp_services_map[sp_tcp->GetFD()] = host;`
unfoldable pub add_client : Server → List ℕ → Sock → ClientHost → Server
add_client s name sock host = record s {
  active = insert name (insert sock.address sock (clients_of s.active name)) s.active;
  tcp_services = insert sock.fd host s.tcp_services;
}

module _ ⦃net : Inet⦄ where
  -- `std::find_first_of` with one host, and `erase` at the place found; `none` for the end.
  unfoldable pub remove_host : ClientHost → List ClientHost → Option (List ClientHost)
  remove_host host [] = none
  remove_host host (h ∷ hosts) =
      let rest = remove_host host hosts in
      if same_host h host
      then some hosts
      else elim rest [ none ↦ none | some hosts' ↦ some (h ∷ hosts') ]

  -- The same search, and `set_state` at the place found.
  unfoldable pub update_host : ClientHost → List ClientHost → Option (List ClientHost)
  update_host host [] = none
  update_host host (h ∷ hosts) =
      let rest = update_host host hosts in
      if same_host h host
      then some (set_state h (host_state host) ∷ hosts)
      else elim rest [ none ↦ none | some hosts' ↦ some (h ∷ hosts') ]

  unfoldable pub unregister_client_from_service : Server → List ℕ → ClientHost → Server
  unregister_client_from_service s name host = elim (lookup name s.services) [
    | none ↦ s
    | some hosts ↦ elim (remove_host host hosts) [
      | none ↦ s
      | some [] ↦ record s { services = erase name s.services }
      | some (h ∷ rest) ↦ record s { services = insert name (h ∷ rest) s.services }
    ]
  ]

  -- A registration's effect on the maps, with its return code and error text.
  pub record Registered : Type 0 where
    pub server : Server
    pub ret_code : ℕ
    pub errmsg : List ℕ

  -- The host with the peer's address where it gives none; a null pointer leaves an error.
  unfoldable pub fill_address : ClientHost → Option Sock → ClientHost × ℕ × List ℕ
  fill_address host sp_tcp =
      if is_nil (host_ip host)
      then elim sp_tcp [
        | none ↦ (host, 1, codes "can not get host ip for receiver service.")
        | some sock ↦ (set_ip host sock.dest_ip, 0, [])
      ]
      else (host, 0, [])

  -- Registration under a name that has hosts already.
  unfoldable pub register_existing :
      Server → List ℕ → List ClientHost → Option Sock → ClientHost → Outcome Server
  register_existing s name hosts sp_tcp host = elim (update_host host hosts) [
    | some hosts' ↦ done (record s { services = insert name hosts' s.services })
    | none ↦ with_sock sp_tcp λ sock. done (
        add_client (record s { services = insert name (hosts ++ (host ∷ [])) s.services }) name sock
          host)
  ]

  -- Registration under a name that has none: port 0 means a client that serves nothing.
  unfoldable pub register_new :
      Server → List ℕ → Option Sock → ClientHost → ℕ → List ℕ → Outcome Registered
  register_new s name sp_tcp host ret err =
      if not (host_port host == 0)
      then (with_sock sp_tcp λ sock. done (record {
        server =
            add_client (record s { services = insert name (host ∷ []) s.services }) name sock host;
        ret_code = ret;
        errmsg = err;
      }))
      else (if is_some (lookup name s.active)
          then done (record {
            server = s;
            ret_code = 1;
            errmsg = codes "Register without service port can only be registered once.";
          })
          else (with_sock sp_tcp λ sock.
              done (record { server = add_client s name sock host; ret_code = ret; errmsg = err })))

  unfoldable pub register_host : Server → List ℕ → Option Sock → ClientHost → Outcome Registered
  register_host s name sp_tcp requested =
      let (host, ret, err) = fill_address requested sp_tcp in
      elim (lookup name s.services) [
        | some hosts ↦ do
          server ← register_existing s name hosts sp_tcp host
          done (record { server = server; ret_code = ret; errmsg = err })
        | none ↦ register_new s name sp_tcp host ret err
      ]

  -- The search of server_onClose: the first entry that holds the connection, the rest of its
  -- connections, and the entry's name.
  unfoldable pub find_client :
      Table (List ℕ) (Table ℕ Sock) → ℕ → Option (List ℕ × Sock × Table ℕ Sock)
  find_client [] address = none
  find_client ((name, socks) ∷ active) address =
      let rest = find_client active address in
      elim (lookup address socks) [
        | none ↦ rest
        | some sock ↦ some (name, sock, erase address socks)
      ]

  -- server_onClose: the connection leaves the first entry that holds it, and the host it
  -- registered leaves that service.
  unfoldable pub server_on_close : Server → Sock → Outcome Server
  server_on_close s sock = elim (find_client s.active sock.address) [
    | none ↦ done (unregister_client_from_service s [] no_host)
    | some (name, found, socks) ↦
        if sock.fd == found.fd
        then done (
            let host : ClientHost = elim (lookup sock.fd s.tcp_services) [
              | none ↦ no_host
              | some h ↦ h
            ] in
            unregister_client_from_service
              (record s {
                active = if is_nil socks then erase name s.active else insert name socks s.active;
                tcp_services = erase sock.fd s.tcp_services;
              })
              name host)
        else aborted
  ]

  -- server_onTimeout and server_onError; closing the socket is the event loop's.
  abbrev pub server_on_timeout : Server → Sock → Outcome Server
  server_on_timeout s sock = server_on_close s sock

  abbrev pub server_on_error : Server → Sock → Outcome Server
  server_on_error s sock = server_on_close s sock
