-- ===== src/Db.antt =====
-- database/: the users and administrators that the database process answers for, and the
-- connections to it.
pub mod Table
pub mod Admins
pub mod Users
pub mod Pool
pub mod Connect
pub mod Regist
