-- ===== src/Server/Hosts.antt =====
-- The host list of a service: what adding, updating and removing one host do to it.
use message_bus_all_in_one_f.Common.{
  ℕ, ◌≡◌, ◌≢◌, refl, ◌∙◌, true, false, none, some, List, [], ◌∷◌, ◌++◌, All, bytes_eq_comm,
  bytes_eq→eq, bytes_eq_refl, ◌⊎◌, Bool-cases, inl, inr, arith,
}
use message_bus_all_in_one_f.Wire.Host.{
  Inet, ClientHost, same_host, host_ip, host_port, host_state, set_state,
}
use message_bus_all_in_one_f.Wire.Host.Equal.{same_host_refl}
use message_bus_all_in_one_f.Server.Registry.{remove_host, update_host}

module _ ⦃net : Inet⦄ where
  pub same_host_comm : (l r : ClientHost) → same_host l r ≡ same_host r l
  unfolding same_host
  same_host_comm l r = ground (arith, bytes_eq_comm (host_ip l) (host_ip r))

  -- A new state makes no other host of it.
  pub same_host-set_state :
      (h r : ClientHost) (state : ℕ) → same_host (set_state h state) r ≡ same_host h r
  unfolding same_host host_ip host_port set_state
  same_host-set_state h r state = refl

  -- No host of the list is `host`.
  abbrev pub Lacks : ClientHost → List ClientHost → Type 0
  Lacks host hosts = All (λ h. same_host h host ≡ false) hosts

  -- Some host of the list is `host`.
  pub data Has (host : ClientHost) : List ClientHost → Type 0 where
    here :
        {h : ClientHost} {hosts : List ClientHost} → same_host h host ≡ true → Has host (h ∷ hosts)
    there : {h : ClientHost} {hosts : List ClientHost} → Has host hosts → Has host (h ∷ hosts)

  -- No host stands twice.
  abbrev pub IsDistinct : List ClientHost → Type 0
  IsDistinct [] = Unit {0}
  IsDistinct (h ∷ hosts) = Lacks h hosts × IsDistinct hosts

  abbrev pub IsGood : List ClientHost → Type 0
  IsGood hosts = (hosts ≢ []) × IsDistinct hosts

  -- Two hosts that a third is are one host.
  pub same_host_trans :
      (a b c : ClientHost) → same_host a c ≡ true → same_host b c ≡ true → same_host a b ≡ true
  unfolding same_host
  same_host_trans a b c p q = ground (
    arith,
    bytes_eq→eq (host_ip a) (host_ip c),
    bytes_eq→eq (host_ip b) (host_ip c),
    bytes_eq_refl (host_ip a),
  )

  same_host_chain :
      (x h host : ClientHost)
      → same_host h x ≡ true
      → same_host h host ≡ true
      → same_host x host ≡ true
  same_host_chain x h host p q =
      same_host_trans x host h (same_host_comm x h ∙ p) (same_host_comm host h ∙ q)

  -- The first host that is `host` is taken out.
  pub data Removes (host : ClientHost) : List ClientHost → List ClientHost → Type 0 where
    hit :
        {h : ClientHost} {hosts : List ClientHost}
        → same_host h host ≡ true
        → Removes host (h ∷ hosts) hosts
    miss :
        {h : ClientHost} {hosts rest : List ClientHost}
        → same_host h host ≡ false
        → Removes host hosts rest
        → Removes host (h ∷ hosts) (h ∷ rest)

  -- The first host that is `host` gets its state.
  pub data Updates (host : ClientHost) : List ClientHost → List ClientHost → Type 0 where
    hit :
        {h : ClientHost} {hosts : List ClientHost}
        → same_host h host ≡ true
        → Updates host (h ∷ hosts) (set_state h (host_state host) ∷ hosts)
    miss :
        {h : ClientHost} {hosts rest : List ClientHost}
        → same_host h host ≡ false
        → Updates host hosts rest
        → Updates host (h ∷ hosts) (h ∷ rest)

  -- The two searches find nothing exactly where the list lacks the host.
  pub remove_host_cases :
      (host : ClientHost) (hosts : List ClientHost)
      → ((remove_host host hosts ≡ none) × Lacks host hosts)
        ⊎ ((rest : List ClientHost) × (remove_host host hosts ≡ some rest)
            × Removes host hosts rest)
  unfolding remove_host
  remove_host_cases host [] = inl (refl, tt)
  remove_host_cases host (h ∷ hosts) = elim (Bool-cases (same_host h host)) [
    | inl found ↦ inr (hosts, rw found, Removes.hit found)
    | inr other ↦ elim (remove_host_cases host hosts) [
      | inl (e, l) ↦ inl (rw (other, e), (other, l))
      | inr (rest, e, r) ↦ inr (h ∷ rest, rw (other, e), Removes.miss other r)
    ]
  ]

  pub update_host_cases :
      (host : ClientHost) (hosts : List ClientHost)
      → ((update_host host hosts ≡ none) × Lacks host hosts)
        ⊎ ((rest : List ClientHost) × (update_host host hosts ≡ some rest)
            × Updates host hosts rest)
  unfolding update_host
  update_host_cases host [] = inl (refl, tt)
  update_host_cases host (h ∷ hosts) = elim (Bool-cases (same_host h host)) [
    | inl found ↦ inr (_, rw found, Updates.hit found)
    | inr other ↦ elim (update_host_cases host hosts) [
      | inl (e, l) ↦ inl (rw (other, e), (other, l))
      | inr (rest, e, r) ↦ inr (h ∷ rest, rw (other, e), Updates.miss other r)
    ]
  ]

  Removes-Lacks :
      {host : ClientHost} {hosts rest : List ClientHost} (x : ClientHost)
      → Removes host hosts rest
      → Lacks x hosts
      → Lacks x rest
  Removes-Lacks x (Removes.hit e) l = l.1
  Removes-Lacks x (Removes.miss e r) l = (l.0, Removes-Lacks x r l.1)

  pub Removes-IsDistinct :
      {host : ClientHost} {hosts rest : List ClientHost}
      → Removes host hosts rest
      → IsDistinct hosts
      → IsDistinct rest
  Removes-IsDistinct (Removes.hit e) d = d.1
  Removes-IsDistinct (Removes.miss {h = h} e r) d =
      (Removes-Lacks h r d.0, Removes-IsDistinct r d.1)

  Lacks-same :
      (h host : ClientHost) (hosts : List ClientHost)
      → same_host h host ≡ true
      → Lacks h hosts
      → Lacks host hosts
  Lacks-same h host [] e l = tt
  Lacks-same h host (x ∷ hosts) e l =
      (ground (arith, same_host_trans x h host), Lacks-same h host hosts e l.1)

  -- With no host twice, the one that was taken out is gone.
  pub Removes-gone :
      {host : ClientHost} {hosts rest : List ClientHost}
      → Removes host hosts rest
      → IsDistinct hosts
      → Lacks host rest
  Removes-gone {host} (Removes.hit {h = h} {hosts = hosts} e) d = Lacks-same h host hosts e d.0
  Removes-gone (Removes.miss e r) d = (e, Removes-gone r d.1)

  -- Every other host stays.
  pub Removes-others :
      {host : ClientHost} {hosts rest : List ClientHost} (x : ClientHost)
      → Removes host hosts rest
      → same_host x host ≡ false
      → Has x hosts
      → Has x rest
  Removes-others {host} x (Removes.hit {h = h} e) ne (here s) =
      cc (ne, same_host_chain x h host s e)
  Removes-others x (Removes.hit e) ne (there m) = m
  Removes-others x (Removes.miss e r) ne (here s) = here s
  Removes-others x (Removes.miss e r) ne (there m) = there (Removes-others x r ne m)

  Updates-Lacks :
      {host : ClientHost} {hosts rest : List ClientHost} (x : ClientHost)
      → Updates host hosts rest
      → Lacks x hosts
      → Lacks x rest
  Updates-Lacks {host} x (Updates.hit {h = h} e) l =
      (same_host-set_state h x (host_state host) ∙ l.0, l.1)
  Updates-Lacks x (Updates.miss e r) l = (l.0, Updates-Lacks x r l.1)

  Lacks-set_state :
      (h : ClientHost) (state : ℕ) (hosts : List ClientHost)
      → Lacks h hosts
      → Lacks (set_state h state) hosts
  Lacks-set_state h state [] l = tt
  Lacks-set_state h state (x ∷ hosts) l = (
    same_host_comm x (set_state h state) ∙ same_host-set_state h x state ∙ same_host_comm h x ∙ l.0,
    Lacks-set_state h state hosts l.1,
  )

  pub Updates-IsDistinct :
      {host : ClientHost} {hosts rest : List ClientHost}
      → Updates host hosts rest
      → IsDistinct hosts
      → IsDistinct rest
  Updates-IsDistinct {host} (Updates.hit {h = h} {hosts = hosts} e) d =
      (Lacks-set_state h (host_state host) hosts d.0, d.1)
  Updates-IsDistinct (Updates.miss {h = h} e r) d =
      (Updates-Lacks h r d.0, Updates-IsDistinct r d.1)

  pub Updates-Has :
      {host : ClientHost} {hosts rest : List ClientHost} → Updates host hosts rest → Has host rest
  Updates-Has {host} (Updates.hit {h = h} e) =
      here (same_host-set_state h host (host_state host) ∙ e)
  Updates-Has (Updates.miss e r) = there (Updates-Has r)

  append-Lacks :
      (x host : ClientHost) (hosts : List ClientHost)
      → Lacks x hosts
      → same_host host x ≡ false
      → Lacks x (hosts ++ (host ∷ []))
  append-Lacks x host [] l e = (e, tt)
  append-Lacks x host (h ∷ hosts) l e = (l.0, append-Lacks x host hosts l.1 e)

  pub append-IsDistinct :
      (host : ClientHost) (hosts : List ClientHost)
      → IsDistinct hosts
      → Lacks host hosts
      → IsDistinct (hosts ++ (host ∷ []))
  append-IsDistinct host [] d l = (tt, tt)
  append-IsDistinct host (h ∷ hosts) d l = (
    append-Lacks h host hosts d.0 (same_host_comm host h ∙ l.0),
    append-IsDistinct host hosts d.1 l.1,
  )

  pub append-Has : (host : ClientHost) (hosts : List ClientHost) → Has host (hosts ++ (host ∷ []))
  append-Has host [] = here (same_host_refl host)
  append-Has host (h ∷ hosts) = there (append-Has host hosts)
