-- ===== src/LoginServer.antt =====
-- GameServer/LoginServer/server/LoginServer.cxx: the login server. What the operating system, OpenSSL,
-- the database and the client do is the argument of each handler; what the handler does to them is a
-- list of actions, in order.
pub mod Handler
pub mod Ports
pub mod Secure
pub mod Reads
pub mod Login
pub mod Access
pub mod Safety
pub mod Assembly
pub mod Signup
pub mod Requests
pub mod Auth
pub mod Retries
pub mod Children
pub mod Accounts
pub mod Writers
pub mod Launch
pub mod Reaping
pub mod Zombies
pub mod Closing
pub mod Closed
pub mod Inserts
pub mod Database
pub mod Directory
pub mod Lives
mod Examples
pub mod TableExamples
mod ClosedExamples
mod SignalExamples
