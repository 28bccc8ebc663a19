-- ===== src/Server/Relay/Among.antt =====
-- The connections of the services in Core/msgbus_server.cpp, and the one that is chosen.
use message_bus_all_in_one_f.Common.{
  ℕ, zero, suc, ◌≡◌, ◌≢◌, refl, sym, ◌∙◌, none, some, Option-cases, [], ◌∷◌, inl, inr, length,
}
use message_bus_all_in_one_f.Table.{Table, bytes_key, nat_key}
use message_bus_all_in_one_f.Server.{Sock}
use message_bus_all_in_one_f.Server.Select.{pick, select_best_sock, randselect}

-- One of the connections of a service.
pub data Among (sock : Sock) : Table ℕ Sock → Type 0 where
  first : {address : ℕ} {socks : Table ℕ Sock} → Among sock ((address, sock) ∷ socks)
  later : {entry : ℕ × Sock} {socks : Table ℕ Sock} → Among sock socks → Among sock (entry ∷ socks)

same_sock : (a b : Sock) → some a ≡ some b → a ≡ b
same_sock a b e = cc

pick-Among :
    (count : ℕ) (socks : Table ℕ Sock) (sock : Sock)
    → pick count socks ≡ some sock
    → Among sock socks
unfolding pick
pick-Among count [] sock e = cc
pick-Among zero ((address, s) ∷ socks) sock e = rw (same_sock s sock e) first
pick-Among (suc count) ((address, s) ∷ socks) sock e = later (pick-Among count socks sock e)

best_first :
    (rand address : ℕ) (s : Sock) (socks : Table ℕ Sock)
    → pick (suc (randselect rand (length ((address, s) ∷ socks)))) ((address, s) ∷ socks) ≡ none
    → select_best_sock rand ((address, s) ∷ socks) ≡ some s
unfolding select_best_sock
best_first rand address s socks e = rw (e, select_best_sock) refl

best_pick :
    (rand address : ℕ) (s best : Sock) (socks : Table ℕ Sock)
    → pick (suc (randselect rand (length ((address, s) ∷ socks)))) ((address, s) ∷ socks)
      ≡ some best
    → select_best_sock rand ((address, s) ∷ socks) ≡ some best
unfolding select_best_sock
best_pick rand address s best socks e = rw (e, select_best_sock) refl

pub select_best_sock-Among :
    (rand : ℕ) (socks : Table ℕ Sock) (sock : Sock)
    → select_best_sock rand socks ≡ some sock
    → Among sock socks
unfolding select_best_sock
select_best_sock-Among rand [] sock e = cc
select_best_sock-Among rand ((address, s) ∷ socks) sock e =
    let all = (address, s) ∷ socks in
    let count = suc (randselect rand (length all)) in
    elim (Option-cases (pick count all)) [
      | inl past ↦ rw (same_sock s sock (sym (best_first rand address s socks past) ∙ e)) first
      | inr (best, found) ↦
          pick-Among count all sock (found ∙ sym (best_pick rand address s best socks found) ∙ e)
    ]

select_best_sock-some :
    (rand : ℕ) (socks : Table ℕ Sock)
    → socks ≢ []
    → (sock : Sock) × (select_best_sock rand socks ≡ some sock)
unfolding select_best_sock
select_best_sock-some rand [] ne = absurd (ne refl)
select_best_sock-some rand ((address, s) ∷ socks) ne =
    let all = (address, s) ∷ socks in
    elim (Option-cases (pick (suc (randselect rand (length all))) all)) [
      | inl past ↦ (s, best_first rand address s socks past)
      | inr (best, found) ↦ (best, best_pick rand address s best socks found)
    ]

pub select_best_sock-none :
    (rand : ℕ) (socks : Table ℕ Sock) → select_best_sock rand socks ≡ none → socks ≡ []
select_best_sock-none rand [] e = refl
select_best_sock-none rand ((address, s) ∷ socks) e =
    let (sock, e') = select_best_sock-some rand ((address, s) ∷ socks) (λ p. cc) in absurd cc
