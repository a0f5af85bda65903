-- ===== src/Database.antt =====
-- `CRedisOperator` (src/database/CRedisOperator.cpp): what a node group asks of the database. The
-- database's client library, hiredis, and the server behind it are a parameter.
pub mod Run
pub mod Operator
pub mod Send
pub mod Check
pub mod Connect
pub mod Sent
pub mod Serves
pub mod Outage
pub mod Keeps
pub mod Pushed
pub mod Progress
mod Tests
