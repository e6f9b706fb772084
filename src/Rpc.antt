-- ===== src/Rpc.antt =====
-- src/nfs/rpc.ts: ONC RPC messages and record marking.
pub mod Auth
pub mod Messages
pub mod Frames
pub mod Assembler
pub mod Records
