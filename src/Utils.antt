-- ===== src/Utils.antt =====
-- Utils/Utils.h and Utils/Utils.cpp.
pub mod Endian
pub mod Packet
pub mod Args
pub mod Query
pub mod MainCmd
pub mod Heads
