-- ===== src/Wire/Message/RoundTrip.antt =====
-- UnPackData after PackData, for every class whose UnPackBody reads back what PackBody wrote.
use mathlib.Core.List.{append_assoc}
use message_bus_all_in_one_f.Common.{
  ℕ, ◌≡◌, refl, Bool, true, false, ◌&&◌, Bool-cases, inl, inr, if◌then◌else◌, ◌==◌, none, some,
  List, ◌++◌, arith, ==_iff,
}
use message_bus_all_in_one_f.Memory.{done, ◌>>=◌, too_short}
use message_bus_all_in_one_f.Wire.Head.{Head, role_accepts, InRange}
use message_bus_all_in_one_f.Wire.Head.Bytes.{
  head_bytes, pack_head_lem, unpack_role_head-head_bytes, unpack_role_head_other,
}
use message_bus_all_in_one_f.Wire.Message.{Class, Message, packed_head, pack_data, unpack_data}

and_false : (b : Bool) → (b && false) ≡ false
and_false true = refl
and_false false = refl

module _ {Body : Type 0} (c : Class Body) where
  -- A head that the class's own UnPackData accepts.
  pub record IsSendable (h : Head) : Type 0 where
    pub in_range : InRange h
    pub role_fits : role_accepts c.role h.msg_type ≡ true
    pub type_fits : h.body_type ≡ c.expected_type

  -- PackData into enough room succeeds, in as many bytes as a head and a body; UnPackData of any
  -- object from those bytes, whatever follows them, gives the packed head and the body `got`.
  abbrev pub Survives : Message Body → Message Body → ℕ → List ℕ → Body → Type 0
  Survives m m₀ len rest got =
      (bytes : List ℕ) × (pack_data c m len ≡ done (record m { head = packed_head c m }, bytes))
      × (unpack_data c m₀ (bytes ++ rest) 0
          ≡ done (record { head = packed_head c m; body = got }, some 0))

  pub packed_head-InRange : (m : Message Body) → InRange m.head → InRange (packed_head c m)
  packed_head-InRange m v = omega arith

  pub pack_data_lem :
      (m : Message Body) (len : ℕ) (body : List ℕ)
      → too_short len (c.size m.body) ≡ false
      → c.pack_body m.body 0 ≡ done body
      → pack_data c m len
        ≡ done (record m { head = packed_head c m }, head_bytes (packed_head c m) ++ body)
  unfolding pack_data
  pack_data_lem m len body room e = rw (room, pack_head_lem (packed_head c m) 0 refl, e)

  -- UnPackData, given no length, of a head whose fields fit and what follows it: if the message type
  -- fits the class and the body type is the class's, the body is read and its result returned;
  -- otherwise it returns -1, with the head in the object and the body as it was.
  pub unpack_data-head_bytes :
      (m : Message Body) (head : Head) (tail : List ℕ)
      → InRange head
      → unpack_data c m (head_bytes head ++ tail) 0 ≡ (
          if role_accepts c.role head.msg_type && (head.body_type == c.expected_type)
          then (c.unpack_body m.body tail 0 >>= λ r. done (record { head = head; body = r.0 }, r.1))
          else done (record m { head = head }, none))
  unfolding unpack_data head_bytes
  unpack_data-head_bytes m head tail v = elim (Bool-cases (role_accepts c.role head.msg_type)) [
    | inl fits ↦ rw (
      and_false c.unpack_throws,
      unpack_role_head-head_bytes c.role head m.head tail v fits,
      fits,
    )
    | inr other ↦
        rw
          (and_false c.unpack_throws, unpack_role_head_other c.role head m.head tail v other, other)
  ]

  unpack_data_lem :
      (m m₀ : Message Body) (body rest : List ℕ) (got : Body)
      → IsSendable m.head
      → c.unpack_body m₀.body (body ++ rest) 0 ≡ done (got, some 0)
      → unpack_data c m₀ ((head_bytes (packed_head c m) ++ body) ++ rest) 0
        ≡ done (record { head = packed_head c m; body = got }, some 0)
  unpack_data_lem m m₀ body rest got v e =
      let head = packed_head c m in
      rw (
        append_assoc (head_bytes head) body rest,
        unpack_data-head_bytes m₀ head (body ++ rest) (packed_head-InRange m v.in_range),
        v.role_fits,
        (==_iff head.body_type c.expected_type).1 v.type_fits,
        e,
      )

  pub survives :
      (m m₀ : Message Body) (len : ℕ) (body rest : List ℕ) (got : Body)
      → IsSendable m.head
      → too_short len (c.size m.body) ≡ false
      → c.pack_body m.body 0 ≡ done body
      → c.unpack_body m₀.body (body ++ rest) 0 ≡ done (got, some 0)
      → Survives m m₀ len rest got
  survives m m₀ len body rest got v room packs unpacks = (
    head_bytes (packed_head c m) ++ body,
    pack_data_lem m len body room packs,
    unpack_data_lem m m₀ body rest got v unpacks,
  )
