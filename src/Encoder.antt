-- ===== src/Encoder.antt =====
-- binary/encoder.go: the Encoder, over any io.ReadWriter. A method that changes the Encoder is a
-- function from the Encoder to its result and the Encoder after the call. The reader `r` is `rw`
-- itself or, after LimitRead, an io.LimitReader over it with so many bytes left. `charset` holds
-- the conversions of golang.org/x/text/encoding, which are parameters of the model.
pub mod Ops
pub mod Strings
pub mod Ready
pub mod Writes
pub mod Reads
pub mod Texts
pub use Ops.*
