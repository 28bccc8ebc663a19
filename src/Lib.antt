-- ===== src/Lib.antt =====
-- A message bus for one process, several processes and the internet: its wire format, its
-- registration and relay server, and the parts that its sockets and clients are built from.
--
-- Clients connect to the server by TCP. A packet is a head of 16 bytes and a body. A client
-- registers its host under a service name; others ask the server for a host of that name and connect
-- to it, or send a message through the server, which forwards it to the services whose names match.
--
-- Which file models what:
-- - Memory: the C memory operations that the code uses. Memory is a list of bytes; reading beyond
--   its end or through a null pointer is `wild`, a failed assertion, a bare `throw` or an exception
--   that ends the program is `aborted`. Integers are natural numbers with their wrap-around written
--   out; htons and htonl swap bytes, as on the little-endian machines that the program runs on.
-- - Wire: Core/msgbus_def.h and Core/msgbus_def.cpp. Wire/Head is MsgBusPackHead, Wire/Host is
--   S_ClientHostInfo, Wire/Message is what the classes share (PackData, UnPackData); Wire/Register,
--   Wire/Alive, Wire/GetClient, Wire/SendMsg and Wire/PbType are the message classes, Wire/VarData
--   their variable part with its flag needfree.
-- - FastBuffer: Core/FastBuffer.h and Core/FastBuffer.cpp, the byte buffer of a socket.
-- - Content: the content of an inter-process message, Core/NetMsgBusUtility.hpp. Its
--   NetMsgBusRspSendMsg is in Receiver/Reply.
-- - Filter: Core/NetMsgBusFilterMgr.cpp. Future: Core/NetMsgBusFuture.hpp.
-- - Receiver: Core/NetMsgBusReceiverMgr.hpp, what other clients send directly. The record Receiver has
--   the senders' names by descriptor, and the contents that were queued for an answer.
-- - ClientPool: Core/TcpClientPool.cpp, the connections of a client by address, with the counter that
--   chooses the next one.
-- - Requester: Core/NetMsgBusReq2ReceiverMgr.hpp, what a client sends directly to another. The record
--   Requester has the tasks, those that wait for an address, the cache of addresses, the futures and
--   the two pools, with what was asked of the server and what was written on which descriptor.
--   Requester/Write is WriteTaskDataToReceiver, Requester/Process is ProcessReqToReceiver and the calls
--   that lead to it, Requester/Answers is Req2Receiver_onRead, and Requester/Answered is
--   HandleRspGetClient. Requester/RoundTrip joins it with Receiver.
-- - Socket: Core/TcpSock.cpp with the masks of Core/SockEvent.hpp. The record World has the socket, the
--   task queues of the loop thread and of the write thread, the events that epoll holds, the callbacks
--   that were called and the bytes that the system took. Socket/Update is the registration of events
--   (with Core/EventLoop.cpp, Core/SockWaiterBase.cpp and Core/EpollWaiter.cpp), shutdown and Close,
--   Socket/Send is DoSend and SendData, Socket/Read is HandleEvent, Socket/Timeout and Socket/Connect
--   are what their names say, and Socket/Life has the steps of any threads in any order,
--   of which Connect is none.
-- - Server: Core/msgbus_server.cpp. The record Server has the maps available_services, active_clients
--   and tcp_services_map, the two queues of the process thread, and the list of what was sent. Each
--   handler is a function on it: Server/Registry and Server/Registration for registering,
--   unregistering, keep-alive, looking up a host and closed connections, Server/Relay for relayed
--   messages and the process thread, Server/Query for protocol buffer requests, Server/Framing for
--   server_onRead, Server/Dispatch for process_data_from_client, Server/Names and Server/Select for
--   the matching of names and the choice of a client. Server/Reach has the server's steps.
-- - Common, Table and Text: lists and Boolean tests, std::map as an association list, std::string.
-- - Tests: the theorems applied to concrete input.
--
-- A handler is one step: it runs in a pool thread, but takes the lock over its use of the maps, except
-- that process_data_from_client looks up the connection before it, and that server_onClose takes the
-- lock twice. A queue that the process thread swaps out at once is taken here one message at a time.
--
-- Loops are structural recursion. server_onRead runs on fuel of one round for each byte and one more;
-- a round takes 16 bytes at least, and the theorem about it gives the whole result. receiver_onRead
-- runs the same way, with nine bytes for a round. The loops of a socket end at EAGAIN: they recurse on
-- the list of the answers of the system, whose end stands for EAGAIN from then on.
-- Req2Receiver_onRead takes eight bytes at least in a round.
--
-- Parameters: the system's inet_pton and inet_ntop (the record Inet with the two laws that the code
-- relies on), the random numbers, what the stack held in an object that a handler declares, the time,
-- how a wait on a condition ends, what the system calls of a socket answer, with what its callbacks
-- return, the local bus, and the protocol buffer library with its generated classes.
--
-- Not modelled: memory allocation and its failure, logging, the locks themselves, the accept loop and
-- the main function of the server, the event loops but for what one socket calls of them, the thread
-- pools, the connection of a client to the server, and the local bus. While a synchronous message waits
-- for its answer, no other thread changes the state of Requester; what the wait gives is an argument,
-- and the arrival of the answer is a step of its own. A callback of a socket does not call back into it, and a
-- call or a task on a socket is one step. int indices of the byte buffer are natural numbers.
pub mod Common
pub mod Memory
pub mod Wire
pub mod FastBuffer
pub mod Content
pub mod Text
pub mod Table
pub mod Filter
pub mod Future
pub mod Receiver
pub mod Requester
pub mod ClientPool
pub mod Server
pub mod Socket
pub mod Tests
