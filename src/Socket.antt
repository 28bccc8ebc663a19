-- ===== src/Socket.antt =====
-- TcpSock of Core/TcpSock.h and Core/TcpSock.cpp with the masks of Core/SockEvent.hpp and the parts
-- of Core/EventLoop.cpp, Core/SockWaiterBase.cpp and Core/EpollWaiter.cpp that it calls: one
-- connection with its two buffers, served by a loop thread that reads and a write thread that
-- writes.
pub mod State
pub mod Update
pub mod Send
pub mod Read
pub mod Flow
pub mod Incoming
pub mod Stream
pub mod Life
pub mod Stall
pub mod Drain
pub mod Timeout
pub mod Connect
