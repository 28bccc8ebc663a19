-- ===== src/Filter.antt =====
-- FilterMgr of Core/NetMsgBusFilterMgr.cpp: which senders and which message ids of other processes
-- reach the local bus.
use message_bus_all_in_one_f.Common.{
  ℕ, ◌≡◌, ◌↔◌, ◌⊎◌, inl, inr, refl, Bool, true, false, List, [], ◌∷◌, ◌++◌, if◌then◌else◌, bytes_eq,
  bytes_eq→eq, bytes_eq_refl, Bool-cases, arith, sym, ◌∙◌,
}
use message_bus_all_in_one_f.Text.{
  find, found_at_front, found_at_front-find, starts_with→split, starts_with-append,
}

pub record Filters : Type 0 where
  pub include_senders : List (List ℕ)
  pub exclude_msgids : List (List ℕ)

unfoldable pub add_include_sender : Filters → List ℕ → Filters
add_include_sender f name = record f { include_senders = f.include_senders ++ (name ∷ []) }

unfoldable pub add_exclude_msgid : Filters → List ℕ → Filters
add_exclude_msgid f msgid = record f { exclude_msgids = f.exclude_msgids ++ (msgid ∷ []) }

-- The loops over the two vectors.
unfoldable pub is_included : List (List ℕ) → List ℕ → Bool
is_included [] name = false
is_included (s ∷ senders) name =
    let rest = is_included senders name in if bytes_eq s name then true else rest

unfoldable pub is_excluded : List (List ℕ) → List ℕ → Bool
is_excluded [] msgid = false
is_excluded (x ∷ ids) msgid =
    let rest = is_excluded ids msgid in if found_at_front (find x msgid) then true else rest

abbrev pub is_nil : List (List ℕ) → Bool
is_nil [] = true
is_nil (x ∷ xs) = false

unfoldable pub filter_by_sender : Filters → List ℕ → Bool
filter_by_sender f name =
    if is_nil f.include_senders then true else is_included f.include_senders name

unfoldable pub filter_by_msgid : Filters → List ℕ → Bool
filter_by_msgid f msgid =
    if is_nil f.exclude_msgids
    then true
    else if is_excluded f.exclude_msgids msgid
    then false
    else true

-- A member of the list, by its place.
pub data AnyOf (P : List ℕ → Type 0) : List (List ℕ) → Type 0 where
  first : {x : List ℕ} {xs : List (List ℕ)} → P x → AnyOf P (x ∷ xs)
  later : {x : List ℕ} {xs : List (List ℕ)} → AnyOf P xs → AnyOf P (x ∷ xs)

is_included→AnyOf :
    (senders : List (List ℕ)) (name : List ℕ)
    → is_included senders name ≡ true
    → AnyOf (λ s. s ≡ name) senders
unfolding is_included
is_included→AnyOf [] name h = cc
is_included→AnyOf (s ∷ senders) name h = elim (Bool-cases (bytes_eq s name)) [
  | inl same ↦ first (bytes_eq→eq s name same)
  | inr other ↦ later (is_included→AnyOf senders name (rw other at h))
]

AnyOf→is_included :
    (senders : List (List ℕ)) (name : List ℕ)
    → AnyOf (λ s. s ≡ name) senders
    → is_included senders name ≡ true
unfolding is_included
AnyOf→is_included [] name m = elim m [ ]
AnyOf→is_included (s ∷ senders) name (first e) = rw (e, bytes_eq_refl name)
AnyOf→is_included (s ∷ senders) name (later m) = ground (arith, AnyOf→is_included senders name m)

sender_iff :
    (senders : List (List ℕ)) (name : List ℕ)
    → ((if is_nil senders then true else is_included senders name) ≡ true)
      ↔ ((senders ≡ []) ⊎ AnyOf (λ s. s ≡ name) senders)
sender_iff [] name = (λ _. inl refl, λ _. refl)
sender_iff (s ∷ senders) name = (
  λ h. inr (is_included→AnyOf (s ∷ senders) name h),
  elim [ inl e ↦ cc | inr m ↦ AnyOf→is_included (s ∷ senders) name m ],
)

-- A sender passes exactly when no sender is listed or it is one of the listed.
pub filter_by_sender_iff :
    (f : Filters) (name : List ℕ)
    → (filter_by_sender f name ≡ true)
      ↔ ((f.include_senders ≡ []) ⊎ AnyOf (λ s. s ≡ name) f.include_senders)
unfolding filter_by_sender
filter_by_sender_iff f name = sender_iff f.include_senders name

-- That the id `msgid` begins with `x`.
abbrev pub Begins : List ℕ → List ℕ → Type 0
Begins msgid x = (rest : List ℕ) × (msgid ≡ x ++ rest)

is_excluded→AnyOf :
    (ids : List (List ℕ)) (msgid : List ℕ) → is_excluded ids msgid ≡ true → AnyOf (Begins msgid) ids
unfolding is_excluded
is_excluded→AnyOf [] msgid h = cc
is_excluded→AnyOf (x ∷ ids) msgid h = elim (Bool-cases (found_at_front (find x msgid))) [
  | inl hit ↦ first (starts_with→split x msgid (sym (found_at_front-find x msgid) ∙ hit))
  | inr other ↦ later (is_excluded→AnyOf ids msgid (rw other at h))
]

AnyOf→is_excluded :
    (ids : List (List ℕ)) (msgid : List ℕ) → AnyOf (Begins msgid) ids → is_excluded ids msgid ≡ true
unfolding is_excluded
AnyOf→is_excluded [] msgid m = elim m [ ]
AnyOf→is_excluded (x ∷ ids) msgid (first (rest, e)) =
    rw (e, found_at_front-find x (x ++ rest), starts_with-append x rest)
AnyOf→is_excluded (x ∷ ids) msgid (later m) = ground (arith, AnyOf→is_excluded ids msgid m)

msgid_iff :
    (ids : List (List ℕ)) (msgid : List ℕ)
    → ((if is_nil ids then true else if is_excluded ids msgid then false else true) ≡ false)
      ↔ AnyOf (Begins msgid) ids
msgid_iff [] msgid = (λ h. cc, λ m. elim m [ ])
msgid_iff (x ∷ ids) msgid = (
  λ h. is_excluded→AnyOf (x ∷ ids) msgid (ground arith),
  λ m. rw (AnyOf→is_excluded (x ∷ ids) msgid m),
)

-- A message id is stopped exactly when it begins with one of the listed ids.
pub filter_by_msgid_iff :
    (f : Filters) (msgid : List ℕ)
    → (filter_by_msgid f msgid ≡ false) ↔ AnyOf (Begins msgid) f.exclude_msgids
unfolding filter_by_msgid
filter_by_msgid_iff f msgid = msgid_iff f.exclude_msgids msgid
