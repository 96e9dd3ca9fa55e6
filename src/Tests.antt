-- ===== src/Tests.antt =====
-- Concrete runs of the driver: the messages, the packets and the sessions.
pub mod Wires
pub mod Logins
pub mod Streams
pub mod Sending
pub mod Dates
pub mod Columns
pub mod Decimals
pub mod Responses
pub mod Rows
pub mod Values
