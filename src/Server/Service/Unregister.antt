-- ===== src/Server/Service/Unregister.antt =====
-- unregister_client_from_service of Core/msgbus_server.cpp against the relation of services.
use message_bus_all_in_one_f.Common.{
  ℕ, ◌≡◌, ◌≢◌, sym, ◌∙◌, ap, false, some, List, [], ◌∷◌, Option-cases, ◌⊎◌, inl, inr, subst,
}
use message_bus_all_in_one_f.Table.{bytes_key, nat_key, lookup, lookup-All}
use message_bus_all_in_one_f.Wire.Host.{Inet, ClientHost, same_host}
use message_bus_all_in_one_f.Server.{Server}
use message_bus_all_in_one_f.Server.Hosts.{
  Has, Removes, remove_host_cases, Removes-gone, Removes-others,
}
use message_bus_all_in_one_f.Server.Registry.{unregister_client_from_service}
use message_bus_all_in_one_f.Server.Invariant.{IsService, IsValid}
use message_bus_all_in_one_f.Server.Service.{
  Serves, same_value, insert_keeps, erase_keeps, lookup_inserted, lookup_erased, Has-Lacks,
}

module _ ⦃net : Inet⦄ where
  -- Unregistering a host takes it from the service, in every state where no service has a host
  -- twice; every other host of the service stays, and every other service keeps all of its hosts.
  pub unregister_lem :
      (s : Server) (name : List ℕ) (host : ClientHost)
      → IsValid s
      → (¬ Serves (unregister_client_from_service s name host) name host)
        × ((n : List ℕ) (x : ClientHost)
            → (n ≢ name) ⊎ (same_host x host ≡ false)
            → Serves s n x
            → Serves (unregister_client_from_service s name host) n x)
  unfolding unregister_client_from_service
  unregister_lem s name host v = elim (Option-cases (lookup name s.services)) [
    | inl e ↦
        rw (e, unregister_client_from_service) ((λ (hosts, e', m). cc (e, e')), λ n x other m. m)
    | inr (hosts, e) ↦ elim (remove_host_cases host hosts) [
      | inl (r, l) ↦
          rw (e, unregister_client_from_service, r)
            (
              (λ (found, e', m).
                  Has-Lacks host hosts (subst (Has host) (same_value found hosts (sym e' ∙ e)) m)
                    l),
              λ n x other m. m,
            )
      | inr ([], r, removes) ↦
          rw (e, unregister_client_from_service, r)
            (
              (λ (found, e', m). cc (e', lookup_erased name s.services)),
              λ n x other m.
                  erase_keeps s.services name n x
                    (λ p. elim (only n x other m hosts [] e removes p) [ ]) m,
            )
      | inr (h ∷ rest, r, removes) ↦
          rw (e, unregister_client_from_service, r)
            (
              (λ (found, e', m).
                  Has-Lacks host (h ∷ rest)
                    (subst (Has host)
                      (same_value found (h ∷ rest)
                        (sym e' ∙ lookup_inserted name (h ∷ rest) s.services))
                      m)
                    (Removes-gone removes
                      (lookup-All IsService name hosts s.services v.services_good e).1.1)),
              λ n x other m.
                  insert_keeps s.services name hosts (h ∷ rest) n x e
                    (λ p m'. stays n x hosts (h ∷ rest) other p removes m') m,
            )
    ]
  ]
    where
      stays :
          (n : List ℕ) (x : ClientHost) (hosts rest : List ClientHost)
          → (n ≢ name) ⊎ (same_host x host ≡ false)
          → n ≡ name
          → Removes host hosts rest
          → Has x hosts
          → Has x rest
      stays n x hosts rest (inl ne) p removes m = absurd (ne p)
      stays n x hosts rest (inr ne) p removes m = Removes-others x removes ne m

      only :
          (n : List ℕ) (x : ClientHost)
          → (n ≢ name) ⊎ (same_host x host ≡ false)
          → Serves s n x
          → (hosts rest : List ClientHost) → lookup name s.services ≡ some hosts
          → Removes host hosts rest
          → n ≡ name
          → Has x rest
      only n x other (found, e', m) hosts rest e removes p =
          stays n x hosts rest other p removes (
            subst (Has x) (same_value found hosts (sym e' ∙ ap (λ k. lookup k s.services) p ∙ e)) m)
