-- ===== src/Server/Service/Find.antt =====
-- process_getclient_req of Core/msgbus_server.cpp against the relation of services.
use message_bus_all_in_one_f.Common.{
  ℕ, ◌⊎◌, ◌<◌, ◌^◌, ◌≡◌, ◌≢◌, refl, none, some, List, [], ◌∷◌, length, arith, Option-cases, inl,
  inr, get_elem?, zero, suc,
}
use message_bus_all_in_one_f.Memory.{done}
use message_bus_all_in_one_f.Table.{bytes_key, lookup, lookup-All}
use message_bus_all_in_one_f.Wire.Host.{Inet, ClientHost, no_host}
use message_bus_all_in_one_f.Wire.Host.Equal.{same_host_refl}
use message_bus_all_in_one_f.Server.{Server}
use message_bus_all_in_one_f.Server.Hosts.{Has, here, there}
use message_bus_all_in_one_f.Server.Select.{select_best_host, select_best_host_lem}
use message_bus_all_in_one_f.Server.Registration.{find_host}
use message_bus_all_in_one_f.Server.Invariant.{IsService, IsValid}
use message_bus_all_in_one_f.Server.Service.{Serves}

module _ ⦃net : Inet⦄ where
  get_elem?-Has :
      (hosts : List ClientHost) (i : ℕ) (host : ClientHost)
      → get_elem? hosts i ≡ some host
      → Has host hosts
  get_elem?-Has [] i host e = cc
  get_elem?-Has (h ∷ hosts) zero host e = here (rw (some-eq h host e) (same_host_refl host))
    where
      some-eq : (a b : ClientHost) → some a ≡ some b → a ≡ b
      some-eq a b p = cc
  get_elem?-Has (h ∷ hosts) (suc i) host e = there (get_elem?-Has hosts i host e)

  length-positive : (hosts : List ClientHost) → hosts ≢ [] → 0 < length hosts
  length-positive [] ne = absurd (ne refl)
  length-positive (h ∷ hosts) ne = omega arith

  find_host_missing :
      (s : Server) (name : List ℕ) (rand : ℕ)
      → lookup name s.services ≡ none
      → find_host s name rand ≡ done (1, no_host)
  unfolding find_host
  find_host_missing s name rand e = rw (e, find_host) refl

  find_host_best :
      (s : Server) (name : List ℕ) (rand : ℕ) (hosts : List ClientHost) (host : ClientHost)
      → lookup name s.services ≡ some hosts
      → select_best_host rand hosts ≡ done (some host)
      → find_host s name rand ≡ done (0, host)
  unfolding find_host
  find_host_best s name rand hosts host e e' = rw (e, find_host, e') refl

  -- In a state where no service is without a host, a client that asks for a name gets, whatever
  -- number is drawn, the code 0 and a host that the service has where there is one, and the code 1
  -- and no host where there is none.
  pub find_host_lem :
      (s : Server) (name : List ℕ) (rand : ℕ)
      → rand < 2 ^ 31
      → IsValid s
      → ((host : ClientHost) × (find_host s name rand ≡ done (0, host)) × Serves s name host)
        ⊎ ((find_host s name rand ≡ done (1, no_host)) × ((x : ClientHost) → ¬ Serves s name x))
  find_host_lem s name rand small v = elim (Option-cases (lookup name s.services)) [
    | inl e ↦ inr (find_host_missing s name rand e, λ x (hosts, e', m). cc (e, e'))
    | inr (hosts, e) ↦
        let good = lookup-All IsService name hosts s.services v.services_good e in
        let (i, host, low, high, at, best) =
          select_best_host_lem rand hosts small (length-positive hosts good.1.0) in
        inl (
          host,
          find_host_best s name rand hosts host e best,
          (hosts, e, get_elem?-Has hosts i host at),
        )
  ]
