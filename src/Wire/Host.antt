-- ===== src/Wire/Host.antt =====
-- S_ClientHostInfo (ClientHost) and ClientHostIsEqual of Core/msgbus_def.h. The fields hold what
-- the struct's memory holds, in network byte order. `inet_ntop` and `inet_pton` are the system's:
-- they come as a record with the two laws that the code relies on.
pub mod Equal
use message_bus_all_in_one_f.Common.{
  ℕ, zero, suc, ◌+◌, ◌<◌, ◌^◌, ◌≡◌, Bool, ◌&&◌, Option, none, some, List, [], ◌∷◌, ◌++◌, drop, ◌==◌,
  bytes_eq, if◌then◌else◌,
}
use message_bus_all_in_one_f.Memory.{
  Outcome, done, ◌>>=◌, store16, store32, load16, load32, htons, htonl, ntohs, ntohl,
}
use message_bus_all_in_one_f.Memory.Copy.{padded}

-- `str.c_str()` read as a text: what stands before the first NUL.
unfoldable pub up_to_nul : List ℕ → List ℕ
up_to_nul [] = []
up_to_nul (c ∷ s) = let rest = up_to_nul s in if c == 0 then [] else c ∷ rest

-- kServerBusyState.
abbrev pub low : ℕ
low = 0

-- INET6_ADDRSTRLEN.
abbrev pub inet6_addrstrlen : ℕ
inet6_addrstrlen = 46

-- An address is the number that its four bytes make in the machine's byte order.
pub record Inet : Type 0 where
  -- `inet_pton(AF_INET, text, &ip)`, with `none` where it does not return 1.
  pub pton : List ℕ → Option ℕ
  -- The text that `inet_ntop(AF_INET, &ip, …)` writes.
  pub ntop : ℕ → List ℕ
  pub pton-ntop : (a : ℕ) → a < 2 ^ 32 → pton (ntop a) ≡ some a
  -- The text fits INET6_ADDRSTRLEN bytes with the NUL behind it.
  pub ntop_fits : (a : ℕ) → a < 2 ^ 32 → up_to_nul (padded inet6_addrstrlen (ntop a)) ≡ ntop a

pub record ClientHost : Type 0 where
  pub ip_ : ℕ
  pub port_ : ℕ
  pub busy_state_ : ℕ

-- sizeof(ClientHost) under `#pragma pack(push,1)`.
abbrev pub host_size : ℕ
host_size = 4 + 2 + 4

-- S_ClientHostInfo().
pub no_host : ClientHost
no_host = record { ip_ = 0; port_ = 0; busy_state_ = htonl low }

unfoldable pub set_port : ClientHost → ℕ → ClientHost
set_port h port = record h { port_ = htons port }

unfoldable pub set_state : ClientHost → ℕ → ClientHost
set_state h state = record h { busy_state_ = htonl state }

unfoldable pub host_port : ClientHost → ℕ
host_port h = ntohs h.port_

unfoldable pub host_state : ClientHost → ℕ
host_state h = ntohl h.busy_state_

module _ ⦃net : Inet⦄ where
  unfoldable pub set_ip : ClientHost → List ℕ → ClientHost
  set_ip h ip_str = elim (net.pton (up_to_nul ip_str)) [
    | some a ↦ record h { ip_ = a }
    | none ↦ record h { ip_ = 0 }
  ]

  -- The constructor from a text and a port.
  pub new_host : List ℕ → ℕ → ClientHost
  new_host ip_str port = set_ip (set_port no_host port) ip_str

  -- The text fills INET6_ADDRSTRLEN bytes, NULs included.
  unfoldable pub host_ip : ClientHost → List ℕ
  host_ip h = if h.ip_ == 0 then [] else padded inet6_addrstrlen (net.ntop h.ip_)

  -- ClientHostIsEqual.
  unfoldable pub same_host : ClientHost → ClientHost → Bool
  same_host left right =
      bytes_eq (host_ip left) (host_ip right) && host_port left == host_port right

-- The struct is copied as it lies in memory.
unfoldable pub store_host : ClientHost → List ℕ
store_host h = store32 h.ip_ ++ (store16 h.port_ ++ store32 h.busy_state_)

unfoldable pub load_host : List ℕ → Outcome ClientHost
load_host p = do
  ip ← load32 p
  port ← load16 (drop 4 p)
  state ← load32 (drop 6 p)
  done (record { ip_ = ip; port_ = port; busy_state_ = state })

pub record HostInRange (h : ClientHost) : Type 0 where
  pub ip_fits : h.ip_ < 2 ^ 32
  pub port_fits : h.port_ < 2 ^ 16
  pub state_fits : h.busy_state_ < 2 ^ 32
