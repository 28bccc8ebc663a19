-- ===== src/Wire/GetClient/RoundTrip.antt =====
-- The address query and its answer arrive.
use mathlib.Core.List.{append_assoc, append-nil}
use message_bus_all_in_one_f.Common.{
  ℕ, ◌<◌, ◌^◌, ◌≡◌, false, refl, sym, ap, ◌∙◌, some, List, [], ◌++◌, length, length-append, arith,
}
use message_bus_all_in_one_f.Memory.{done, too_short, htons, store16}
use message_bus_all_in_one_f.Memory.Copy.{
  padded, length-padded, strncpy-eq, strncpy-padded, drop-padded,
}
use message_bus_all_in_one_f.Memory.Words.{net16, htons-htons}
use message_bus_all_in_one_f.Wire.Host.{HostInRange, store_host}
use message_bus_all_in_one_f.Wire.Host.Equal.{load_host-store_host}
use message_bus_all_in_one_f.Wire.Message.{Message, body_size}
use message_bus_all_in_one_f.Wire.Message.RoundTrip.{IsSendable, Survives, survives}
use message_bus_all_in_one_f.Wire.Register.{name_size}
use message_bus_all_in_one_f.Wire.GetClient.{
  GetClientReq, getclient_req_size, pack_getclient_req, unpack_getclient_req, getclient_req,
  GetClientRsp, getclient_rsp_size, pack_getclient_rsp, unpack_getclient_rsp, getclient_rsp,
}

pack_getclient_req_lem :
    (r : GetClientReq)
    → length r.dest_name ≡ name_size
    → pack_getclient_req r 0 ≡ done (padded name_size r.dest_name)
unfolding pack_getclient_req
pack_getclient_req_lem r h = strncpy-eq name_size r.dest_name (omega arith)

unpack_getclient_req_lem :
    (r r₀ : GetClientReq) (rest : List ℕ)
    → unpack_getclient_req r₀ (padded name_size r.dest_name ++ rest) 0
      ≡ done (record r { dest_name = padded name_size r.dest_name }, some 0)
unfolding unpack_getclient_req
unpack_getclient_req_lem r r₀ rest = rw (strncpy-padded name_size r.dest_name rest)

-- A request for a client's host, with a full name array and packed into enough room: the name up
-- to its NUL arrives.
pub getclient_req-Survives :
    (m m₀ : Message GetClientReq) (len : ℕ) (rest : List ℕ)
    → IsSendable getclient_req m.head
    → too_short len (getclient_req_size m.body) ≡ false
    → length m.body.dest_name ≡ name_size
    → Survives getclient_req m m₀ len rest
        (record m.body { dest_name = padded name_size m.body.dest_name })
getclient_req-Survives m m₀ len rest v room h =
    survives getclient_req m m₀ len _ rest _ v room (pack_getclient_req_lem m.body h)
      (unpack_getclient_req_lem m.body m₀.body rest)

abbrev pub getclient_rsp_bytes : GetClientRsp → List ℕ
getclient_rsp_bytes r =
    store16 (htons r.ret_code) ++ (padded name_size r.dest_name ++ store_host r.dest_host)

pub pack_getclient_rsp_lem :
    (r : GetClientRsp)
    → length r.dest_name ≡ name_size
    → pack_getclient_rsp r 0 ≡ done (getclient_rsp_bytes r)
unfolding pack_getclient_rsp
pack_getclient_rsp_lem r h = rw (strncpy-eq name_size r.dest_name (omega arith))

unpack_getclient_rsp_lem :
    (r r₀ : GetClientRsp) (rest : List ℕ)
    → r.ret_code < 2 ^ 16
    → HostInRange r.dest_host
    → unpack_getclient_rsp r₀ (getclient_rsp_bytes r ++ rest) 0
      ≡ done (record r { dest_name = padded name_size r.dest_name }, some 0)
unfolding unpack_getclient_rsp
unpack_getclient_rsp_lem r r₀ rest hc v = rw (
  append_assoc (padded name_size r.dest_name) (store_host r.dest_host) rest,
  net16 r.ret_code (padded name_size r.dest_name ++ (store_host r.dest_host ++ rest)),
  strncpy-padded name_size r.dest_name (store_host r.dest_host ++ rest),
  drop-padded name_size r.dest_name (store_host r.dest_host ++ rest),
  load_host-store_host r.dest_host rest v,
  htons-htons r.ret_code hc,
)

-- The same with the length given.
pub unpack_getclient_rsp_whole :
    (r r₀ : GetClientRsp)
    → r.ret_code < 2 ^ 16
    → HostInRange r.dest_host
    → unpack_getclient_rsp r₀ (getclient_rsp_bytes r) (length (getclient_rsp_bytes r))
      ≡ done (record r { dest_name = padded name_size r.dest_name }, some 0)
unfolding unpack_getclient_rsp store_host
unpack_getclient_rsp_whole r r₀ hc v = rw long_enough (
    ap (λ p. unpack_getclient_rsp r₀ p 0) (sym (append-nil (getclient_rsp_bytes r)))
    ∙ unpack_getclient_rsp_lem r r₀ [] hc v)
  where
    long_enough :
        too_short (length (getclient_rsp_bytes r)) (body_size (getclient_rsp_size r₀)) ≡ false
    long_enough =
        rw
          (
            length-append (padded name_size r.dest_name) (store_host r.dest_host),
            length-padded name_size r.dest_name,
          )
          refl

-- The answer to a request for a client's host, with a full name array, a code of 16 bits and a host
-- whose fields fit: the code, the name up to its NUL and the host arrive.
pub getclient_rsp-Survives :
    (m m₀ : Message GetClientRsp) (len : ℕ) (rest : List ℕ)
    → IsSendable getclient_rsp m.head
    → too_short len (getclient_rsp_size m.body) ≡ false
    → length m.body.dest_name ≡ name_size
    → m.body.ret_code < 2 ^ 16
    → HostInRange m.body.dest_host
    → Survives getclient_rsp m m₀ len rest
        (record m.body { dest_name = padded name_size m.body.dest_name })
getclient_rsp-Survives m m₀ len rest v room h hc host =
    survives getclient_rsp m m₀ len _ rest _ v room (pack_getclient_rsp_lem m.body h)
      (unpack_getclient_rsp_lem m.body m₀.body rest hc host)
