-- ===== src/Messages.antt =====
-- messages.go: the messages, one module each.
pub mod Tokens
pub mod Codec
pub mod Done
pub mod EnvChange
pub mod ReturnStatus
pub mod SqlMessage
pub mod Dynamic
pub mod Language
pub mod Login
pub mod LoginAck
pub mod Options
pub mod OptionCmd
pub mod Small
pub mod Capabilities
