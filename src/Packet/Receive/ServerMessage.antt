-- ===== src/Packet/Receive/ServerMessage.antt =====
-- A message that the packets carry.
use tds.Base.{◌≡◌, Option, none, ◌++◌, Bytes}
use tds.Golang.Errors.{SybError}
use tds.Golang.Order.{ByteOrder}
use tds.Encoder.Ops.{Charset, Encoder}
use tds.Encoder.Ready.{Ready}
use tds.Messages.SqlMessage
use tds.Packet.{Buf, buf}
use tds.Packet.Receive.Through.{Carrying, packet_source}

-- A server message that the packets carry is read from them, wherever in it the packets are cut: the
-- encoder `pe` gives its fields with no error, and the packets carry the bytes behind it, if its fields fit their
-- widths and its texts survive the charset and fit their lengths.
pub read_sql_message-packets :
    (o : ByteOrder) (cs : Option Charset) (pe : Encoder Buf) (m : SybError) (rest : Bytes)
    → SqlMessage.IsSqlMessage cs m
    → Ready Carrying o cs (SqlMessage.wire o cs m ++ rest) pe
    → ((SqlMessage.read_message pe).0 ≡ (m, none))
      × Ready Carrying o cs rest (SqlMessage.read_message pe).1
read_sql_message-packets o cs pe m rest h r =
    (SqlMessage.Reads-read_message o cs m packet_source h).run pe rest r
