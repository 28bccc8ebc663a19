-- ===== src/Wire/Host/Equal.antt =====
-- When ClientHostIsEqual holds, what the setters change, and the copy of a host through memory.
use message_bus_all_in_one_f.Common.{
  ℕ, ◌<◌, ◌^◌, ◌≡◌, ◌≢◌, ◌↔◌, sym, ap, ◌∙◌, true, List, [], ◌++◌, length, arith, bytes_eq_refl,
  bytes_eq→eq,
}
use message_bus_all_in_one_f.Memory.{done, load16, load32, htons}
use message_bus_all_in_one_f.Memory.Words.{htons-htons, bytes16, bytes32}
use message_bus_all_in_one_f.Memory.Copy.{padded, length-padded}
use message_bus_all_in_one_f.Wire.Host.{
  Inet, ClientHost, HostInRange, up_to_nul, host_ip, host_port, same_host, store_host, load_host,
  inet6_addrstrlen,
}

module _ ⦃net : Inet⦄ where
  -- Two addresses with one text are one address.
  ntop_injective : (a b : ℕ) → a < 2 ^ 32 → b < 2 ^ 32 → net.ntop a ≡ net.ntop b → a ≡ b
  ntop_injective a b ha hb e = cc (net.pton-ntop a ha, net.pton-ntop b hb)

  padded_ntop_injective :
      (a b : ℕ)
      → a < 2 ^ 32
      → b < 2 ^ 32
      → padded inet6_addrstrlen (net.ntop a) ≡ padded inet6_addrstrlen (net.ntop b)
      → a ≡ b
  padded_ntop_injective a b ha hb e =
      ntop_injective a b ha hb (sym (net.ntop_fits a ha) ∙ ap up_to_nul e ∙ net.ntop_fits b hb)

  padded-ne-nil : (s : List ℕ) → padded inet6_addrstrlen s ≢ []
  padded-ne-nil s e = omega (arith, ap length e, length-padded inet6_addrstrlen s)

  host_ip_injective :
      (l r : ClientHost) → HostInRange l → HostInRange r → host_ip l ≡ host_ip r → l.ip_ ≡ r.ip_
  unfolding host_ip
  host_ip_injective l r vl vr e = ground (
    arith,
    padded_ntop_injective l.ip_ r.ip_ vl.ip_fits vr.ip_fits,
    padded-ne-nil (net.ntop l.ip_),
    padded-ne-nil (net.ntop r.ip_),
  )

  -- A host has an empty address text exactly when its address is 0.
  pub host_ip_empty : (h : ClientHost) → (host_ip h ≡ []) ↔ (h.ip_ ≡ 0)
  unfolding host_ip
  host_ip_empty h = ground (arith, padded-ne-nil (net.ntop h.ip_))

  same_ip_text : (l r : ClientHost) → l.ip_ ≡ r.ip_ → host_ip l ≡ host_ip r
  unfolding host_ip
  same_ip_text l r e = rw e

  port_injective : (a b : ℕ) → a < 2 ^ 16 → b < 2 ^ 16 → htons a ≡ htons b → a ≡ b
  port_injective a b ha hb e = sym (htons-htons a ha) ∙ ap htons e ∙ htons-htons b hb

  -- Of two hosts whose fields fit, ClientHostIsEqual compares the address and the port, and nothing
  -- else.
  pub same_host_iff :
      (l r : ClientHost)
      → HostInRange l
      → HostInRange r
      → (same_host l r ≡ true) ↔ ((l.ip_ ≡ r.ip_) × (l.port_ ≡ r.port_))
  unfolding same_host host_port
  same_host_iff l r vl vr = ground (
    arith,
    bytes_eq→eq (host_ip l) (host_ip r),
    bytes_eq_refl (host_ip l),
    host_ip_injective l r vl vr,
    same_ip_text l r,
    port_injective l.port_ r.port_ vl.port_fits vr.port_fits,
  )

  pub same_host_refl : (h : ClientHost) → same_host h h ≡ true
  unfolding same_host
  same_host_refl h = ground (arith, bytes_eq_refl (host_ip h))

-- A host copied to memory and back is the host.
pub load_host-store_host :
    (h : ClientHost) (rest : List ℕ) → HostInRange h → load_host (store_host h ++ rest) ≡ done h
unfolding load_host store_host load32 load16
load_host-store_host h rest v =
    cc (bytes32 h.ip_ v.ip_fits, bytes16 h.port_ v.port_fits, bytes32 h.busy_state_ v.state_fits)
