-- ===== src/Checks.antt =====
-- Tests, and the theorems at concrete inputs.
mod Text
mod Base
mod Sql
mod Session
mod OfState
mod OfWire
mod OfSql
mod OfScenario
mod OfProxy
mod OfPump
mod OfReplay
mod OfSocket
mod OfCli
