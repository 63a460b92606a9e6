-- ===== src/Apps.antt =====
-- The programs under apps that use the library: what they decide by themselves.
pub mod Submit
pub mod CliOpts
pub mod CliAmount
pub mod CliRun
pub mod CliCount
pub mod Load
pub mod LoadOpts
pub mod Replies
pub mod LoadRun
pub mod Requests
pub mod ConnOpts
pub mod ConnRun
pub mod ConnState
pub mod ConnSafe
pub mod ConnEvents
pub mod ConnTest
pub mod ConnWhole
pub mod ConnLate
