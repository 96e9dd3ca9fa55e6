-- ===== src/Messages/OptionCmd.antt =====
-- The option command of messages.go, which sets options such as the isolation level.
use tds.Base.{
  ◌^◌, ◌≡◌, Bool, false, Option, none, some, [], ◌∷◌, ◌++◌, length, Bytes, ltb, get_or, ◌==◌,
  if◌then◌else◌,
}
use tds.Base.Int.{ℤ, pos, negsuc, u8, u32, IsInt8, IsInt32}
use tds.Golang.Errors.{Error, unknown_option, panic}
use tds.Golang.Order.{ByteOrder, put}
use tds.Golang.Io.{ReadWriter}
use tds.Golang.Buffer.{Buffer, buffer}
use tds.Encoder.Ops.{
  Charset, Encoder, M, ◌>>=◌, ◌>>◌, pure, take_err, write_int8, write_int32, int8, int32,
}
use tds.Encoder.Strings.{write_string_with_len, read_string}
use tds.Encoder.Texts.{IsText, text8}
use tds.Encoder.Ready.{Ready}
use tds.Encoder.Reads.{Reads}
use tds.Encoder.Writes.{Writes}
use tds.Messages.Codec.{returning}
use tds.Messages.Options.{Kind, truth_kind, int8_kind, int32_kind, text_kind, option_types}

-- The dynamic types of `value` that the code looks for, and any other.
pub data Value : Type 0 where
  truth : Bool → Value
  text : Bytes → Value
  number : ℤ → Value
  number32 : ℤ → Value
  number8 : ℤ → Value
  other : Value

pub record OptionCmd : Type 0 where
  pub command : ℤ
  pub option : ℤ
  pub value : Value

-- `optionTypes[option]` behind the test of its index, which lets the length of the table pass.
unfoldable pub option_type : ℤ → Kind × Option Error
option_type (negsuc n) = (truth_kind, some panic)
option_type (pos n) =
    if ltb (length option_types) n
    then (truth_kind, some (unknown_option (pos n)))
    else if n == length option_types
    then (truth_kind, some panic)
    else (get_or option_types n truth_kind, none)

-- `value, _ := c.value.(…)`: the zero value if the type is another.
abbrev truth_of : Value → Bool
truth_of (truth b) = b
truth_of v = false

abbrev text_of : Value → Bytes
text_of (text bs) = bs
text_of v = []

abbrev number_of : Value → ℤ
number_of (number n) = n
number_of v = pos 0

module _ {S : Type 0} ⦃w : ReadWriter S⦄ where
  unfoldable write_value : Kind → Value → M S (Unit {0})
  write_value truth_kind v =
      write_int8 (pos 1) >>= λ _. write_int8 (if truth_of v then pos 1 else pos 0)
  write_value text_kind v = write_string_with_len 8 (text_of v)
  write_value int32_kind v = write_int8 (pos 4) >>= λ _. write_int32 (number_of v)
  write_value int8_kind v = write_int8 (pos 1) >>= λ _. write_int8 (number_of v)

  unfoldable write_checked : OptionCmd → Kind × Option Error → M S (Option Error)
  write_checked m (k, some e) = pure (some e)
  write_checked m (k, none) = do
    write_int8 m.command
    write_int8 m.option
    write_value k m.value
    take_err

  unfoldable pub write_message : OptionCmd → M S (Option Error)
  unfolding write_checked write_value
  write_message m = write_checked m (option_type m.option)

  unfoldable read_value : Kind → M S Value
  read_value truth_kind = int8 >>= λ _. int8 >>= λ n. pure (truth (u8 n == 1))
  read_value text_kind = read_string 8 >>= λ r. pure (text r.0)
  read_value int32_kind = int8 >>= λ _. int32 >>= λ n. pure (number32 n)
  read_value int8_kind = int8 >>= λ _. int8 >>= λ n. pure (number8 n)

  unfoldable read_checked : OptionCmd → Kind × Option Error → M S (OptionCmd × Option Error)
  read_checked m (k, some e) = pure (m, some e)
  read_checked m (k, none) = read_value k >>= λ v. returning (record m { value = v })

  -- The value of the command that is read into stays where the option is not known.
  unfoldable pub read_message : OptionCmd → M S (OptionCmd × Option Error)
  unfolding read_checked read_value
  read_message old = do
    command ← int8
    option ← int8
    read_checked (record old { command = command; option = option }) (option_type option)

-- The value has the type that the option asks for, and fits its width on the wire.
pub data IsValue (cs : Option Charset) : Kind → Value → Type 0 where
  is_truth : (b : Bool) → IsValue cs truth_kind (truth b)
  is_text : (bs : Bytes) → IsText cs (2 ^ 8) bs → IsValue cs text_kind (text bs)
  is_number32 : (n : ℤ) → IsInt32 n → IsValue cs int32_kind (number n)
  is_number8 : (n : ℤ) → IsInt8 n → IsValue cs int8_kind (number n)

-- The option is one of the table.
pub record IsOptionCmd (cs : Option Charset) (m : OptionCmd) : Type 0 where
  pub kind : Kind
  pub known : option_type m.option ≡ (kind, none)
  pub command : IsInt8 m.command
  pub option : IsInt8 m.option
  pub value : IsValue cs kind m.value

abbrev wire_value : ByteOrder → Option Charset → Kind → Value → Bytes
wire_value o cs truth_kind v = (1 ∷ []) ++ (u8 (if truth_of v then pos 1 else pos 0) ∷ [])
wire_value o cs text_kind v = text8 cs (text_of v)
wire_value o cs int32_kind v = (4 ∷ []) ++ put o 4 (u32 (number_of v))
wire_value o cs int8_kind v = (1 ∷ []) ++ (u8 (number_of v) ∷ [])

abbrev pub wire : ByteOrder → Option Charset → Kind → OptionCmd → Bytes
wire o cs k m = (u8 m.command ∷ []) ++ ((u8 m.option ∷ []) ++ wire_value o cs k m.value)

-- A number comes back with its own width.
abbrev pub received_value : Kind → Value → Value
received_value int32_kind (number n) = number32 n
received_value int8_kind (number n) = number8 n
received_value k v = v
