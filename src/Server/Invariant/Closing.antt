-- ===== src/Server/Invariant/Closing.antt =====
-- server_onClose of Core/msgbus_server.cpp keeps the maps good.
use message_bus_all_in_one_f.Common.{
  ℕ, ◌≡◌, ◌≢◌, refl, sym, ◌∙◌, some, List, [], ◌∷◌, All, ◌==◌, if◌then◌else◌, Bool-cases,
  Option-cases, inl, inr,
}
use message_bus_all_in_one_f.Memory.Inside.{Ensures}
use message_bus_all_in_one_f.Table.{
  Table, bytes_key, nat_key, lookup, insert, erase, insert-All, erase-All,
}
use message_bus_all_in_one_f.Wire.Host.{Inet, no_host}
use message_bus_all_in_one_f.Server.{Server, Sock}
use message_bus_all_in_one_f.Server.Registry.{is_nil, find_client, server_on_close}
use message_bus_all_in_one_f.Server.Invariant.{IsActive, IsValid, unregister-IsValid}

module _ ⦃net : Inet⦄ where
  same_name : (x y : List ℕ × Sock × Table ℕ Sock) → some x ≡ some y → x.0 ≡ y.0
  same_name x y e = cc

  find_client_here :
      (address : ℕ) (n : List ℕ) (here : Table ℕ Sock) (active : Table (List ℕ) (Table ℕ Sock))
      (sock : Sock)
      → lookup address here ≡ some sock
      → find_client ((n, here) ∷ active) address ≡ some (n, sock, erase address here)
  unfolding find_client
  find_client_here address n here active sock e = rw (e, find_client) refl

  -- The entry that the search finds has a name.
  pub find_client-named :
      (active : Table (List ℕ) (Table ℕ Sock)) (address : ℕ) (name : List ℕ) (found : Sock)
      (socks : Table ℕ Sock)
      → All IsActive active
      → find_client active address ≡ some (name, found, socks)
      → name ≢ []
  unfolding find_client
  find_client-named [] address name found socks good e = cc
  find_client-named ((n, here) ∷ active) address name found socks good e =
      elim (Option-cases (lookup address here)) [
        | inl e' ↦
            find_client-named active address name found socks good.1
              (sym (rw (e', find_client) refl) ∙ e)
        | inr (sock, e') ↦ λ nil.
            good.0.0
              (same_name _ _ (sym (find_client_here address n here active sock e') ∙ e) ∙ nil)
      ]

  -- What is left of the connections of one name after one of them has gone.
  pub left_good :
      (name : List ℕ)
      → name ≢ []
      → (socks : Table ℕ Sock) (active : Table (List ℕ) (Table ℕ Sock)) → All IsActive active
      → All IsActive (if is_nil socks then erase name active else insert name socks active)
  left_good name ne [] active good = erase-All IsActive name active good
  left_good name ne (x ∷ socks) active good = insert-All IsActive name _ active (ne, λ p. cc) good

  pub server_on_close-IsValid :
      (s : Server) (sock : Sock) → IsValid s → Ensures IsValid (server_on_close s sock)
  unfolding server_on_close
  server_on_close-IsValid s sock v = elim (Option-cases (find_client s.active sock.address)) [
    | inl e ↦ rw (e, server_on_close) (unregister-IsValid s [] no_host v)
    | inr ((name, found, socks), e) ↦ elim (Bool-cases (sock.fd == found.fd)) [
      | inr e' ↦ rw (e, e', server_on_close) tt
      | inl e' ↦
          let ne = find_client-named s.active sock.address name found socks v.active_good e in
          rw (e, e', server_on_close)
            (unregister-IsValid _ name _ (record {
              services_good = v.services_good;
              active_good = left_good name ne socks s.active v.active_good;
            }))
    ]
  ]
