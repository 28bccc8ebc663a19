-- ===== src/Wire/SendMsg/Inside.antt =====
-- Given the true length of the body, UnPackBody of the relay messages stays inside it, whatever
-- the bytes are.
use message_bus_all_in_one_f.Common.{ℕ, ◌<◌, List, length, drop, length-drop, arith}
use message_bus_all_in_one_f.Memory.{too_short}
use message_bus_all_in_one_f.Memory.Inside.{
  Returns, Returns-done, Returns-bind, Returns-if, long_enough, load16_inside, load32_inside,
  strncpy_inside, memcpy_inside,
}
use message_bus_all_in_one_f.Wire.Register.{name_size, RegisterRsp, unpack_register_rsp}
use message_bus_all_in_one_f.Wire.SendMsg.{
  SendMsgReq, unpack_sendmsg_req, SendMsgRsp, unpack_sendmsg_rsp,
}

-- UnPackBody of a relay request, given the true length of a body that is not empty, returns:
-- whatever the bytes are, no read leaves the body.
pub unpack_sendmsg_req_inside :
    (r : SendMsgReq) (p : List ℕ) → 0 < length p → Returns (unpack_sendmsg_req r p (length p))
unfolding unpack_sendmsg_req
unpack_sendmsg_req_inside r p h =
    Returns-if (too_short (length p) _) (λ _. Returns-done _)
      λ fixed.
        let room = long_enough (length p) _ h fixed in
        let p₁ = drop name_size p in
        let p₂ = drop name_size p₁ in
        let p₃ = drop 4 p₂ in
        Returns-bind (strncpy_inside name_size p (omega arith)) λ dest.
          Returns-bind (strncpy_inside name_size p₁ (omega (arith, length-drop name_size p)))
            λ from.
              Returns-bind
                (load32_inside p₂
                  (omega (arith, length-drop name_size p, length-drop name_size p₁)))
                λ msg_len.
                  Returns-if (too_short (length p) _) (λ _. Returns-done _)
                    λ all.
                      let full = long_enough (length p) _ h all in
                      Returns-bind
                        (memcpy_inside _ p₃ (
                          omega (
                            arith,
                            length-drop name_size p,
                            length-drop name_size p₁,
                            length-drop 4 p₂,
                          )))
                        λ content. Returns-done _

-- UnPackBody of the answer to a relay request, given the true length of a body that is not empty,
-- returns: whatever the bytes are, no read leaves the body.
pub unpack_sendmsg_rsp_inside :
    (r : SendMsgRsp) (p : List ℕ) → 0 < length p → Returns (unpack_sendmsg_rsp r p (length p))
unfolding unpack_sendmsg_rsp
unpack_sendmsg_rsp_inside r p h =
    Returns-if (too_short (length p) _) (λ _. Returns-done _)
      λ two.
        let room = long_enough (length p) _ h two in
        let p₁ = drop 2 p in
        let p₂ = drop 2 p₁ in
        Returns-bind (load16_inside p room) λ code.
          Returns-if (too_short (length p) 2) (λ _. Returns-done _)
            λ _.
              Returns-if (too_short (length p) _) (λ _. Returns-done _)
                λ four.
                  let room₂ = long_enough (length p) _ h four in
                  Returns-bind (load16_inside p₁ (omega (arith, length-drop 2 p))) λ text_len.
                    Returns-if (too_short (length p) _) (λ _. Returns-done _)
                      λ all.
                        let full = long_enough (length p) _ h all in
                        Returns-bind
                          (strncpy_inside _ p₂ (omega (arith, length-drop 2 p, length-drop 2 p₁)))
                          λ text. Returns-done _

-- UnPackBody of the answer to a registration, given the true length of a body that is not empty,
-- returns: whatever the bytes are, no read leaves the body.
pub unpack_register_rsp_inside :
    (r : RegisterRsp) (p : List ℕ) → 0 < length p → Returns (unpack_register_rsp r p (length p))
unfolding unpack_register_rsp
unpack_register_rsp_inside r p h =
    Returns-if (too_short (length p) _) (λ _. Returns-done _)
      λ fixed.
        let room = long_enough (length p) _ h fixed in
        let p₁ = drop 2 p in
        let p₂ = drop name_size p₁ in
        let p₃ = drop 2 p₂ in
        Returns-bind (load16_inside p (omega arith)) λ code.
          Returns-bind (strncpy_inside name_size p₁ (omega (arith, length-drop 2 p))) λ name.
            Returns-bind
              (load16_inside p₂ (omega (arith, length-drop 2 p, length-drop name_size p₁)))
              λ text_len.
                Returns-if (too_short (length p) _) (λ _. Returns-done _)
                  λ all.
                    let full = long_enough (length p) _ h all in
                    Returns-bind
                      (strncpy_inside _ p₃ (
                        omega (arith, length-drop 2 p, length-drop name_size p₁, length-drop 2 p₂)))
                      λ text. Returns-done _
