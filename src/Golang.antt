-- ===== src/Golang.antt =====
-- What the driver uses of Go's standard library: error values, io, bytes.Buffer, encoding/binary.
pub mod Errors
pub mod Order
pub mod Io
pub mod Buffer
pub mod Radix
pub mod Big
