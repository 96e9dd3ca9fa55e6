-- ===== src/Packet/Head.antt =====
-- The packet header of buffer.go.
use tds.Base.{ℕ, Option}
use tds.Golang.Errors.{Error}
use tds.Golang.Io.{ReadWriter}
use tds.Encoder.Ops.{
  M, ◌>>=◌, ◌>>◌, take_err, write_byte, write_uint8, write_uint16, read_byte, uint8, uint16,
}
use tds.Messages.Codec.{returning}

pub record Header : Type 0 where
  pub token : ℕ
  pub status : ℕ
  pub packet_size : ℕ
  pub spid : ℕ
  pub packet_no : ℕ
  pub pad : ℕ

abbrev pub header_size : ℕ
header_size = 8

module _ {S : Type 0} ⦃w : ReadWriter S⦄ where
  -- `header.read`, which assigns every field, after an error too.
  unfoldable pub read_header : M S (Header × Option Error)
  read_header = do
    token ← read_byte
    status ← uint8
    packet_size ← uint16
    spid ← uint16
    packet_no ← uint8
    pad ← uint8
    returning (record {
      token = token;
      status = status;
      packet_size = packet_size;
      spid = spid;
      packet_no = packet_no;
      pad = pad;
    })

  -- `header.write`.
  unfoldable pub write_header : Header → M S (Option Error)
  write_header h = do
    write_byte h.token
    write_byte h.status
    write_uint16 h.packet_size
    write_uint16 h.spid
    write_uint8 h.packet_no
    write_uint8 h.pad
    take_err
