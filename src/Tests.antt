-- ===== src/Tests.antt =====
-- The theorems at concrete inputs, and the parameters of the development as concrete functions.
pub mod Base64
pub mod Json
pub mod Utils
pub mod Args
pub mod Split
pub mod Dealer
pub mod Channel
pub mod Stream
pub mod Deal
pub mod Session
pub mod Sockets
pub mod Users
pub mod Tables
pub mod Pool
pub mod Files
pub mod Local
pub mod Context
pub mod Http
