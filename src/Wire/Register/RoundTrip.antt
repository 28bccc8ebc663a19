-- ===== src/Wire/Register/RoundTrip.antt =====
-- What the registration messages carry arrives.
use mathlib.Core.List.{append_assoc}
use message_bus_all_in_one_f.Common.{ℕ, ◌<◌, ◌≤◌, ◌^◌, ◌≡◌, false, some, List, ◌++◌, length, arith}
use message_bus_all_in_one_f.Memory.{done, too_short, at_pointer, htons, store16}
use message_bus_all_in_one_f.Memory.Copy.{padded, strncpy-eq, strncpy-padded, drop-padded}
use message_bus_all_in_one_f.Memory.Words.{net16, htons-htons}
use message_bus_all_in_one_f.Wire.Host.{HostInRange, store_host}
use message_bus_all_in_one_f.Wire.Host.Equal.{load_host-store_host}
use message_bus_all_in_one_f.Wire.Message.{Message}
use message_bus_all_in_one_f.Wire.Message.RoundTrip.{IsSendable, Survives, survives}
use message_bus_all_in_one_f.Wire.VarData.{replace_var_data}
use message_bus_all_in_one_f.Wire.Register.{
  NamedHost, name_size, named_host_size, pack_named_host, unpack_named_host, register_req,
  unregister_req, RegisterRsp, register_rsp_size, pack_register_rsp, unpack_register_rsp,
  register_rsp,
}

-- The field as `strncpy` wrote it, and the host unchanged.
abbrev pub named_host_received : NamedHost → NamedHost
named_host_received r = record r { service_name = padded name_size r.service_name }

pack_named_host_lem :
    (r : NamedHost)
    → length r.service_name ≡ name_size
    → pack_named_host r 0 ≡ done (padded name_size r.service_name ++ store_host r.service_host)
unfolding pack_named_host
pack_named_host_lem r h = rw (strncpy-eq name_size r.service_name (omega arith))

unpack_named_host_lem :
    (r r₀ : NamedHost) (rest : List ℕ)
    → HostInRange r.service_host
    → unpack_named_host r₀
        ((padded name_size r.service_name ++ store_host r.service_host) ++ rest)
        0
      ≡ done (named_host_received r, some 0)
unfolding unpack_named_host
unpack_named_host_lem r r₀ rest v = rw (
  append_assoc (padded name_size r.service_name) (store_host r.service_host) rest,
  strncpy-padded name_size r.service_name (store_host r.service_host ++ rest),
  drop-padded name_size r.service_name (store_host r.service_host ++ rest),
  load_host-store_host r.service_host rest v,
)

-- A request to register, with the class's own head, a full name array and a host whose fields fit,
-- that is packed into enough room: UnPackData of any object from those bytes, whatever follows them,
-- gives the head, the name up to its NUL and the host.
pub register_req-Survives :
    (m m₀ : Message NamedHost) (len : ℕ) (rest : List ℕ)
    → IsSendable register_req m.head
    → too_short len (named_host_size m.body) ≡ false
    → length m.body.service_name ≡ name_size
    → HostInRange m.body.service_host
    → Survives register_req m m₀ len rest (named_host_received m.body)
register_req-Survives m m₀ len rest v room h host =
    survives register_req m m₀ len _ rest _ v room (pack_named_host_lem m.body h)
      (unpack_named_host_lem m.body m₀.body rest host)

-- A request to unregister, with the class's own head, a full name array and a host whose fields fit,
-- packed into enough room: the name up to its NUL and the host arrive.
pub unregister_req-Survives :
    (m m₀ : Message NamedHost) (len : ℕ) (rest : List ℕ)
    → IsSendable unregister_req m.head
    → too_short len (named_host_size m.body) ≡ false
    → length m.body.service_name ≡ name_size
    → HostInRange m.body.service_host
    → Survives unregister_req m m₀ len rest (named_host_received m.body)
unregister_req-Survives m m₀ len rest v room h host =
    survives unregister_req m m₀ len _ rest _ v room (pack_named_host_lem m.body h)
      (unpack_named_host_lem m.body m₀.body rest host)

-- The answer as it arrives in an object whose variable part was `old`.
abbrev pub register_rsp_received : RegisterRsp → RegisterRsp → RegisterRsp
register_rsp_received r old = record r {
  service_name = padded name_size r.service_name;
  err_msg = replace_var_data old.err_msg (padded r.err_msg_len (at_pointer r.err_msg.content));
}

abbrev register_rsp_bytes : RegisterRsp → List ℕ
register_rsp_bytes r =
    store16 (htons r.ret_code)
    ++ (padded name_size r.service_name
        ++ (store16 (htons r.err_msg_len) ++ padded r.err_msg_len (at_pointer r.err_msg.content)))

pack_register_rsp_lem :
    (r : RegisterRsp)
    → length r.service_name ≡ name_size
    → r.err_msg_len ≤ length (at_pointer r.err_msg.content)
    → pack_register_rsp r 0 ≡ done (register_rsp_bytes r)
unfolding pack_register_rsp
pack_register_rsp_lem r h k = rw (
  strncpy-eq name_size r.service_name (omega arith),
  strncpy-eq r.err_msg_len (at_pointer r.err_msg.content) k,
)

unpack_register_rsp_lem :
    (r r₀ : RegisterRsp) (rest : List ℕ)
    → r.ret_code < 2 ^ 16
    → r.err_msg_len < 2 ^ 16
    → unpack_register_rsp r₀ (register_rsp_bytes r ++ rest) 0
      ≡ done (register_rsp_received r r₀, some 0)
unfolding unpack_register_rsp
unpack_register_rsp_lem r r₀ rest hc hl =
    let text = padded r.err_msg_len (at_pointer r.err_msg.content) in
    let tail = store16 (htons r.err_msg_len) ++ text in
    rw (
      append_assoc (padded name_size r.service_name) tail rest,
      net16 r.ret_code (padded name_size r.service_name ++ (tail ++ rest)),
      strncpy-padded name_size r.service_name (tail ++ rest),
      drop-padded name_size r.service_name (tail ++ rest),
      net16 r.err_msg_len (text ++ rest),
      htons-htons r.ret_code hc,
      htons-htons r.err_msg_len hl,
      strncpy-padded r.err_msg_len (at_pointer r.err_msg.content) rest,
    )

-- The answer to a registration, with a full name array, a code and a length of 16 bits and a text
-- buffer as long as the length says: the code, the name up to its NUL and the text up to its NUL
-- arrive, in a new buffer that the object owns.
pub register_rsp-Survives :
    (m m₀ : Message RegisterRsp) (len : ℕ) (rest : List ℕ)
    → IsSendable register_rsp m.head
    → too_short len (register_rsp_size m.body) ≡ false
    → length m.body.service_name ≡ name_size
    → m.body.ret_code < 2 ^ 16
    → m.body.err_msg_len < 2 ^ 16
    → m.body.err_msg_len ≤ length (at_pointer m.body.err_msg.content)
    → Survives register_rsp m m₀ len rest (register_rsp_received m.body m₀.body)
register_rsp-Survives m m₀ len rest v room h hc hl k =
    survives register_rsp m m₀ len _ rest _ v room (pack_register_rsp_lem m.body h k)
      (unpack_register_rsp_lem m.body m₀.body rest hc hl)
