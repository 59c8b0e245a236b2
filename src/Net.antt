-- ===== src/Net.antt =====
-- networkinterface/: messages, channels and their router.
pub mod Split
pub mod Frame
pub mod Platform
pub mod Dealer
pub mod Tcp
pub mod Channel
pub mod Router
pub mod Stream
pub mod Manager
pub mod Deal
pub mod Session
pub mod Nng
pub mod Pipe
pub mod Sockets
pub mod Local
