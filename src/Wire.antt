-- ===== src/Wire.antt =====
-- The messages of Core/msgbus_def.h and Core/msgbus_def.cpp: the packet head, the host record,
-- and a module for each message class.
pub mod Head
pub mod Host
pub mod Message
pub mod VarData
pub mod Register
pub mod Alive
pub mod GetClient
pub mod SendMsg
pub mod PbType
