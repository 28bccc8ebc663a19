-- ===== src/Server.antt =====
-- The registration and relay server, Core/msgbus_server.cpp: its maps, its queues, and what it has
-- sent. Each handler runs in a pool thread and holds the lock over its use of the maps.
pub mod Names
pub mod Select
pub mod Registry
pub mod Registration
pub mod Framing
pub mod Relay
pub mod Query
pub mod Hosts
pub mod Invariant
pub mod Handlers
pub mod Reach
pub mod Service
pub mod Dispatch
use message_bus_all_in_one_f.Common.{ℕ, List, [], ◌++◌, ◌∷◌, Option, none, some}
use message_bus_all_in_one_f.Memory.{Outcome, wild}
use message_bus_all_in_one_f.Table.{Table}
use message_bus_all_in_one_f.Wire.Host.{ClientHost}

-- A connection: the address of its TcpSock, its descriptor, and the peer's address text.
pub record Sock : Type 0 where
  pub address : ℕ
  pub fd : ℕ
  pub dest_ip : List ℕ

pub record ReqTask : Type 0 where
  pub client_name : List ℕ
  pub task_bytes : List ℕ

pub record BroadcastTask : Type 0 where
  pub task_bytes : List ℕ

pub record Server : Type 0 where
  -- available_services: the hosts of each service.
  pub services : Table (List ℕ) (List ClientHost)
  -- active_clients: the connections of each service, by address.
  pub active : Table (List ℕ) (Table ℕ Sock)
  -- tcp_services_map: the host that a descriptor registered.
  pub tcp_services : Table ℕ ClientHost
  -- reqtoclient_task_container and broadcast_task_container.
  pub req_tasks : List ReqTask
  pub broadcast_tasks : List BroadcastTask
  -- What SendData was called with, in order.
  pub sent : List (Sock × List ℕ)

abbrev pub new_server : Server
new_server = record {
  services = [];
  active = [];
  tcp_services = [];
  req_tasks = [];
  broadcast_tasks = [];
  sent = [];
}

-- `sp_tcp->f()`: a null pointer is an access outside any object.
abbrev pub with_sock {ℓ} : {A : Type ℓ} → Option Sock → (Sock → Outcome A) → Outcome A
with_sock none f = wild
with_sock (some sock) f = f sock

-- `if(sp_tcp) sp_tcp->SendData(…)`.
abbrev pub send : Server → Option Sock → List ℕ → Server
send s none bytes = s
send s (some sock) bytes = record s { sent = s.sent ++ ((sock, bytes) ∷ []) }
