-- ===== src/Messages/Capabilities.antt =====
-- The capabilities message of messages.go: two bitmaps, the last byte first.
pub mod Defaults
pub mod Table
pub mod Bits
pub mod Wire
use tds.Base.{
  ℕ, zero, suc, ◌+◌, ◌-◌, ◌/◌, ◌%◌, ◌^◌, Bool, true, false, ◌&&◌, not, Option, none, some, List, [],
  ◌∷◌, length, get_or, set, replicate, bit_and, bit_or, Bytes, ltb, leb, ◌==◌, if◌then◌else◌,
}
use tds.Base.Int.{ℤ, pos, negsuc, i8}
use tds.Golang.Errors.{Error, invalid_capability_type, above_capabilities, panic}
use tds.Golang.Io.{ReadWriter}
use tds.Encoder.Ops.{
  Encoder, M, ◌>>=◌, ◌>>◌, pure, unless_failed, take_err, write, read, write_byte, write_int8,
  read_byte, int8,
}
use tds.Messages.Tokens.{capability_req_token, capability_res_token}
use tds.Messages.Codec.{returning}
use Defaults.{default_req_capabilities, default_res_capabilities}

pub record Capabilities : Type 0 where
  pub req_token : ℕ
  pub e : ℤ
  pub req : Bytes
  pub res_token : ℕ
  pub res_field_len : ℤ
  pub res : Bytes

abbrev pub default_capabilities_length : ℕ
default_capabilities_length = 14

-- The loop of `setcapabilities` over one bitmap. A capability beyond the bitmap has a negative
-- index, which passes the guard and panics at the access.
unfoldable pub set_bits : Bytes → List ℕ → Bytes × Option Error
set_bits target [] = (target, none)
set_bits target (c ∷ cs) =
    let index = length target - 1 - c / 8 in
    let rest = set_bits (set target index (bit_or (get_or target index 0) (2 ^ (c % 8)))) cs in
    if ltb (length target) (c / 8 + 1)
    then (target, some panic)
    else if leb (length target) index
    then (target, some above_capabilities)
    else rest

unfoldable pub set_capabilities : ℕ → List ℕ → Capabilities → Capabilities × Option Error
unfolding set_bits
set_capabilities kind cs c =
    if kind == capability_req_token
    then (let r = set_bits c.req cs in (record c { req = r.0 }, r.1))
    else if kind == capability_res_token
    then (let r = set_bits c.res cs in (record c { res = r.0 }, r.1))
    else (c, some invalid_capability_type)

-- The test of one bit; `none` for the panic of a negative index.
unfoldable pub bit_is_set : Bytes → ℕ → Option Bool
bit_is_set target c =
    let index = length target - 1 - c / 8 in
    if ltb (length target) (c / 8 + 1)
    then none
    else some
        (ltb index (length target) && not (bit_and (get_or target index 0) (2 ^ (c % 8)) == 0))

unfoldable pub is_set : ℕ → ℕ → Capabilities → Option Bool
unfolding bit_is_set
is_set kind c caps =
    if kind == capability_req_token
    then bit_is_set caps.req c
    else if kind == capability_res_token
    then bit_is_set caps.res c
    else some false

-- `newCapabilities`; the loops call `setcapabilities` for one capability at a time.
unfoldable pub set_each : ℕ → List ℕ → Capabilities → Capabilities
unfolding set_capabilities
set_each kind [] c = c
set_each kind (x ∷ xs) c = set_each kind xs (set_capabilities kind (x ∷ []) c).0

unfoldable pub new_capabilities : Capabilities
unfolding set_each default_req_capabilities default_res_capabilities
new_capabilities = set_each capability_res_token default_res_capabilities (
    set_each capability_req_token default_req_capabilities (record {
      req_token = capability_req_token;
      e = pos 0;
      req = replicate default_capabilities_length 0;
      res_token = capability_res_token;
      res_field_len = pos 0;
      res = replicate default_capabilities_length 0;
    }))

module _ {S : Type 0} ⦃w : ReadWriter S⦄ where
  -- `make([]byte, n)` and a Read over it; a negative n panics.
  unfoldable pub read_made : ℤ → M S Bytes
  read_made (pos n) = read (replicate n 0)
  read_made (negsuc n) = λ e. ([], record e { err = some panic })

  unfoldable pub write_message : Capabilities → M S (Option Error)
  write_message m = do
    write_byte m.req_token
    write_int8 (i8 (length m.req))
    _ ← write m.req
    write_byte m.res_token
    write_int8 (i8 (length m.res))
    _ ← write m.res
    take_err

  unfoldable pub read_message : M S (Capabilities × Option Error)
  read_message = do
    req_token ← read_byte
    e ← int8
    req ← read_made e
    res_token ← read_byte
    res_field_len ← int8
    res ← read_made res_field_len
    returning (record {
      req_token = req_token;
      e = e;
      req = req;
      res_token = res_token;
      res_field_len = res_field_len;
      res = res;
    })
