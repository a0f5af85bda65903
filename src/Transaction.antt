-- ===== src/Transaction.antt =====
-- `CTransaction` (src/transaction/CTransaction.cpp): the session of one client.
pub mod Act
pub mod Pdu
pub mod Handlers
pub mod Messages
pub mod Lifecycle
pub mod Faults
pub mod Reach
pub mod Ends
pub mod Acks
pub mod Session
mod Tests
