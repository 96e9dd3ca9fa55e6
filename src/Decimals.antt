-- ===== src/Decimals.antt =====
-- num.go: decimal numbers, from the value that a user gives to the bytes on the wire. What a Num of the pool held
-- before is overwritten in every call that succeeds, so it is not kept.
pub mod Num
pub mod Table
pub mod Convert
pub mod Wire
