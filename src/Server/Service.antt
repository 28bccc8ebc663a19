-- ===== src/Server/Service.antt =====
-- What the server of Core/msgbus_server.cpp promises its clients, as a relation: under which
-- name which host can be reached.
pub mod Unregister
pub mod Register
pub mod Unlisted
pub mod Known
pub mod Find
pub mod Close
use message_bus_all_in_one_f.Common.{
  ℕ, ◌≡◌, ◌≢◌, refl, sym, ◌∙◌, ap, Bool, true, false, Option, none, some, List, [], ◌∷◌, ◌++◌, ◌==◌,
  Option-cases, bytes_eq, bytes_eq→eq, ◌⊎◌, if◌then◌else◌, Bool-cases, inl, inr, arith,
  bytes_eq_refl, subst,
}
use message_bus_all_in_one_f.Memory.{Outcome, done, ◌>>=◌}
use message_bus_all_in_one_f.Table.{
  Table, bytes_key, nat_key, lookup, insert, erase, lookup-insert, lookup-erase, lookup-All,
}
use message_bus_all_in_one_f.Wire.Host.{
  Inet, ClientHost, same_host, host_ip, host_port, host_state, set_ip, set_state,
}
use message_bus_all_in_one_f.Wire.Host.Equal.{same_host_refl}
use message_bus_all_in_one_f.Server.{Server, Sock}
use message_bus_all_in_one_f.Server.Hosts.{
  Has, here, there, Lacks, Removes, Updates, IsDistinct, remove_host_cases, update_host_cases,
  Removes-gone, Removes-others, Updates-Has, append-Has, same_host-set_state,
}
use message_bus_all_in_one_f.Server.Registry.{
  is_nil, Registered, fill_address, register_existing, register_new, register_host, add_client,
  unregister_client_from_service,
}
use message_bus_all_in_one_f.Server.Registration.{register_named, unregister_named}
use message_bus_all_in_one_f.Server.Invariant.{IsService, IsValid}

module _ ⦃net : Inet⦄ where
  -- The service `name` of the table has the host.
  abbrev pub Holds : Table (List ℕ) (List ClientHost) → List ℕ → ClientHost → Type 0
  Holds services name host =
      (hosts : List ClientHost) × (lookup name services ≡ some hosts) × Has host hosts

  abbrev pub Serves : Server → List ℕ → ClientHost → Type 0
  Serves s name host = Holds s.services name host

  bytes_neq : (n name : List ℕ) → n ≢ name → bytes_eq n name ≡ false
  bytes_neq n name ne = elim (Bool-cases (bytes_eq n name)) [
    | inl e ↦ absurd (ne (bytes_eq→eq n name e))
    | inr e ↦ e
  ]

  pub lookup_inserted :
      {V : Type 0} (name : List ℕ) (v : V) (m : Table (List ℕ) V)
      → lookup name (insert name v m) ≡ some v
  lookup_inserted name v m = lookup-insert name name v m ∙ rw (bytes_eq_refl name)

  lookup-insert_other :
      {V : Type 0} (name n : List ℕ) (v : V) (m : Table (List ℕ) V)
      → n ≢ name
      → lookup n (insert name v m) ≡ lookup n m
  lookup-insert_other name n v m ne = lookup-insert name n v m ∙ rw (bytes_neq n name ne)

  pub lookup_erased :
      {V : Type 0} (name : List ℕ) (m : Table (List ℕ) V) → lookup name (erase name m) ≡ none
  lookup_erased name m = lookup-erase name name m ∙ rw (bytes_eq_refl name)

  lookup-erase_other :
      {V : Type 0} (name n : List ℕ) (m : Table (List ℕ) V)
      → n ≢ name
      → lookup n (erase name m) ≡ lookup n m
  lookup-erase_other name n m ne = lookup-erase name n m ∙ rw (bytes_neq n name ne)

  pub Has-Lacks :
      (host : ClientHost) (hosts : List ClientHost) → Has host hosts → ¬ Lacks host hosts
  Has-Lacks host [] m l = elim m [ ]
  Has-Lacks host (h ∷ hosts) (here e) l = cc (e, l.0)
  Has-Lacks host (h ∷ hosts) (there m) l = Has-Lacks host hosts m l.1

  pub Updates-keeps :
      {host : ClientHost} {hosts rest : List ClientHost} (x : ClientHost)
      → Updates host hosts rest
      → Has x hosts
      → Has x rest
  Updates-keeps {host} x (Updates.hit {h = h} e) (here p) =
      here (same_host-set_state h x (host_state host) ∙ p)
  Updates-keeps x (Updates.hit e) (there m) = there m
  Updates-keeps x (Updates.miss e r) (here p) = here p
  Updates-keeps x (Updates.miss e r) (there m) = there (Updates-keeps x r m)

  pub append_keeps :
      (x host : ClientHost) (hosts : List ClientHost) → Has x hosts → Has x (hosts ++ (host ∷ []))
  append_keeps x host [] m = elim m [ ]
  append_keeps x host (h ∷ hosts) (here p) = here p
  append_keeps x host (h ∷ hosts) (there m) = there (append_keeps x host hosts m)

  pub same_value : (xs ys : List ClientHost) → some xs ≡ some ys → xs ≡ ys
  same_value xs ys e = cc

  -- The hosts of one service are replaced.
  pub insert_keeps :
      (m : Table (List ℕ) (List ClientHost)) (name : List ℕ) (hosts rest : List ClientHost)
      (n : List ℕ) (x : ClientHost)
      → lookup name m ≡ some hosts
      → (n ≡ name → Has x hosts → Has x rest)
      → Holds m n x
      → Holds (insert name rest m) n x
  insert_keeps m name hosts rest n x e keeps (found, e', h) = elim (Bool-cases (bytes_eq n name)) [
    | inl same ↦
        let p : n ≡ name = bytes_eq→eq n name same in
        let q : found ≡ hosts = same_value found hosts (sym e' ∙ ap (λ k. lookup k m) p ∙ e) in
        (
          rest,
          ap (λ k. lookup k (insert name rest m)) p ∙ lookup_inserted name rest m,
          keeps p (subst (Has x) q h),
        )
    | inr other ↦
        (found, lookup-insert_other name n rest m (λ p. cc (other, p, bytes_eq_refl n)) ∙ e', h)
  ]

  pub insert_new_keeps :
      (m : Table (List ℕ) (List ClientHost)) (name : List ℕ) (hosts : List ClientHost) (n : List ℕ)
      (x : ClientHost)
      → lookup name m ≡ none
      → Holds m n x
      → Holds (insert name hosts m) n x
  insert_new_keeps m name hosts n x e (found, e', h) =
      (found, lookup-insert_other name n hosts m (λ p. cc (e, e', ap (λ k. lookup k m) p)) ∙ e', h)

  pub erase_keeps :
      (m : Table (List ℕ) (List ClientHost)) (name n : List ℕ) (x : ClientHost)
      → n ≢ name
      → Holds m n x
      → Holds (erase name m) n x
  erase_keeps m name n x ne (found, e, h) = (found, lookup-erase_other name n m ne ∙ e, h)
