-- ===== src/Tests/Wires.antt =====
-- Concrete messages, written to a buffer and read back, and concrete capabilities.
use tds.Base.{◌^◌, ◌≡◌, ◌||◌, refl, false, none, some, [], ◌∷◌, Bytes, arith}
use tds.Base.Int.{pos, negsuc}
use tds.Golang.Errors.{SybError}
use tds.Golang.Order.{little_endian}
use tds.Golang.Buffer.{Buffer, buffer, holding}
use tds.Encoder.Ops.{Encoder, new_encoder}
use tds.Encoder.Ready.{Ready}
use tds.Encoder.Texts.{IsText}
use tds.Messages.Codec.{Carries, Recovers}
use tds.Messages.Tokens.{capability_req_token, capability_res_token}
use tds.Messages.Done
use tds.Messages.EnvChange
use tds.Messages.ReturnStatus
use tds.Messages.SqlMessage
use tds.Messages.Dynamic
use tds.Messages.Language
use tds.Messages.LoginAck
use tds.Messages.Small
use tds.Messages.Capabilities
use tds.Messages.OptionCmd
use tds.Messages.Capabilities.Wire
use tds.Messages.Capabilities.Bits

abbrev pub encoder : Encoder Buffer
encoder = new_encoder (holding []) little_endian

pub encoder-Ready : Ready Carries little_endian none [] encoder
unfolding new_encoder
encoder-Ready = record {
  holds = refl;
  no_error = refl;
  unlimited = refl;
  order = refl;
  same_charset = refl;
  scratch = refl;
}

abbrev pub master : Bytes
master = 109 ∷ 97 ∷ 115 ∷ 116 ∷ 101 ∷ 114 ∷ []

pub master-IsText8 : IsText none (2 ^ 8) master
master-IsText8 = record { lossless = tt; short = omega arith; readable = omega arith }

master-IsText16 : IsText none (2 ^ 16) master
master-IsText16 = record { lossless = tt; short = omega arith; readable = omega arith }

master-IsText32 : IsText none (2 ^ 32) master
master-IsText32 = record { lossless = tt; short = omega arith; readable = omega arith }

abbrev last_done : Done.Done
last_done = record { status = pos 16; tran_state = pos 2; count = pos 3 }

abbrev to_master : EnvChange.EnvChange
to_master = record { change_type = 1; new_value = master; old_value = [] }

abbrev minus_six : ReturnStatus.ReturnStatus
minus_six = record { status = negsuc 5 }

abbrev pub no_table : SybError
no_table = record {
  msg_number = pos 208;
  state = pos 1;
  severity = pos 16;
  sql_state = master;
  has_eed = 0;
  tran_state = 1;
  message = master;
  server = master;
  procedure = master;
  line_number = pos 1;
}

pub no_table-IsSqlMessage : SqlMessage.IsSqlMessage none no_table
no_table-IsSqlMessage = record {
  msg_number = (omega arith, omega arith);
  state = (omega arith, omega arith);
  severity = (omega arith, omega arith);
  sql_state = master-IsText8;
  tran_state = omega arith;
  message = master-IsText16;
  server = master-IsText8;
  procedure = master-IsText8;
  line_number = (omega arith, omega arith);
}

read-write_sql_message_example :
    Recovers little_endian none
      (SqlMessage.write_message no_table)
      SqlMessage.read_message
      no_table
      encoder
read-write_sql_message_example =
    SqlMessage.read-write_sql_message little_endian none encoder no_table encoder-Ready
      no_table-IsSqlMessage

abbrev prepare : Dynamic.Dynamic
prepare = record { operation = 1; status = 0; name = master; statement = master }

abbrev no_dynamic : Dynamic.Dynamic
no_dynamic = record { operation = 0; status = 0; name = []; statement = [] }

read-write_dynamic_example :
    Recovers little_endian none
      (Dynamic.write_message prepare)
      (Dynamic.read_message no_dynamic)
      (Dynamic.received no_dynamic prepare)
      encoder
read-write_dynamic_example =
    Dynamic.read-write_dynamic little_endian none encoder no_dynamic prepare encoder-Ready
      (record { name = master-IsText8; statement = master-IsText32 })

abbrev use_master : Language.Language
use_master = record { message_len = 0; status = 0; query = master }

abbrev accepted : LoginAck.LoginAck
accepted = record {
  ack = pos 5;
  tds_version = 5 ∷ 0 ∷ 0 ∷ 0 ∷ [];
  server = master;
  server_version = 15 ∷ 0 ∷ 0 ∷ 0 ∷ [];
}

accepted-IsLoginAck : LoginAck.IsLoginAck none accepted
accepted-IsLoginAck = record { tds_version = refl; server = master-IsText8; server_version = refl }

abbrev syb_msg : Small.SybMsg
syb_msg = record { field1 = pos 1; field2 = pos 31 }

abbrev no_syb_msg : Small.SybMsg
no_syb_msg = record { field1 = pos 0; field2 = pos 0 }

abbrev isolation : OptionCmd.OptionCmd
isolation = record { command = pos 1; option = pos 8; value = OptionCmd.number (pos 3) }

abbrev no_option : OptionCmd.OptionCmd
no_option = record { command = pos 0; option = pos 0; value = OptionCmd.other }

abbrev small_caps : Capabilities.Capabilities
small_caps = record {
  req_token = capability_req_token;
  e = pos 2;
  req = 0 ∷ 2 ∷ [];
  res_token = capability_res_token;
  res_field_len = pos 2;
  res = 0 ∷ 0 ∷ [];
}

read-write_capabilities_example :
    Recovers little_endian none
      (Capabilities.write_message small_caps)
      Capabilities.read_message
      (Capabilities.Wire.received small_caps)
      encoder
read-write_capabilities_example =
    Capabilities.Wire.read-write_capabilities little_endian none encoder small_caps encoder-Ready
      (record { req = omega arith; res = omega arith })

is_set-set_capabilities_example :
    ((Capabilities.set_capabilities capability_req_token (3 ∷ 9 ∷ []) small_caps).1 ≡ none)
    × (Capabilities.is_set capability_req_token 9
          (Capabilities.set_capabilities capability_req_token (3 ∷ 9 ∷ []) small_caps).0
        ≡ some (Capabilities.Bits.contains (3 ∷ 9 ∷ []) 9 || false))
is_set-set_capabilities_example =
    Capabilities.Bits.is_set-set_capabilities small_caps (3 ∷ 9 ∷ []) 9 false
      (omega arith, (omega arith, tt)) (omega arith, (omega arith, tt)) (omega arith)
      (unfold Capabilities.is_set in refl)
