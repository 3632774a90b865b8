-- ===== src/Protocol.antt =====
-- The wire protocol: protocol/codec.h and the messages of protocol/messages.h.
pub mod Codec
pub mod Wire
pub mod DataMessages
pub mod GroupMessages
pub mod ReplicaMessages
pub mod ControlMessages
pub mod Crc
pub mod Opcode
pub mod Frame
pub mod Record
mod Examples
mod StreamExamples
