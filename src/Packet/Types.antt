-- ===== src/Packet/Types.antt =====
-- The packet types of packet_type.go and the status bits of buffer.go.
use tds.Base.{ℕ}

abbrev pub none_packet : ℕ
none_packet = 0x00

abbrev pub login_packet : ℕ
login_packet = 0x02

abbrev pub reply_packet : ℕ
reply_packet = 0x04

abbrev pub cancel_packet : ℕ
cancel_packet = 0x06

abbrev pub normal_packet : ℕ
normal_packet = 0x0f

-- `_ = iota; eom; cancelAck; cancel`.
abbrev pub eom : ℕ
eom = 1

abbrev pub cancel_ack : ℕ
cancel_ack = 2

abbrev pub cancel : ℕ
cancel = 3

-- `doneCancel` of messages.go, in the status of a done message.
abbrev pub done_cancel : ℕ
done_cancel = 0x0020
