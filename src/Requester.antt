-- ===== src/Requester.antt =====
-- Req2ReceiverMgr of Core/NetMsgBusReq2ReceiverMgr.hpp: messages that a client sends to another
-- directly. A message is sent on a pooled connection to the host of the other client; the host is
-- looked up in a cache, or asked for at the server while the message waits. The answers come back
-- with the id of the future that waits for them.
pub mod State
pub mod Write
pub mod Process
pub mod Answers
pub mod Received
pub mod Completes
pub mod Total
pub mod RoundTrip
pub mod Near
pub mod Ends
pub mod Fate
pub mod Answered
pub mod Pending
