-- ===== src/Tests/Streams.antt =====
-- Concrete packets: the bytes of a connection, read through the packets that they are cut into.
use tds.Base.{
  true, some, ◌+◌, ◌<◌, ◌≡◌, refl, false, none, [], ◌∷◌, ◌++◌, length, Bytes, arith, take, drop,
}
use tds.Golang.Errors.{eof, canceled}
use tds.Golang.Order.{put, little_endian, big_endian}
use tds.Golang.Io.{read_full}
use tds.Golang.Buffer.{holding}
use tds.Encoder.Ops.{Encoder}
use tds.Encoder.Ready.{Ready}
use tds.Messages.SqlMessage
use tds.Packet.{Buf, buf, pb_of, with_pb, conn_of, send_pkt, process_cancel}
use tds.Packet.Receive.{Awaits}
use tds.Packet.Receive.Cancelled.{process_cancel-acknowledged}
use tds.Packet.Send.Cancelling.{Cancels, cancel_frame, send_pkt-cancelling}
use tds.Packet.Head.{Header}
use tds.Packet.Frames.{Frame, frame_bytes, stream, IsFrame}
use tds.Packet.Receive.Through.{Carrying, read_full-packets}
use tds.Packet.Receive.ServerMessage.{read_sql_message-packets}
use tds.Packet.Messages.{skip}
use tds.Packet.Messages.Skip.{skip-packets}
use tds.Tests.Wires.{no_table, no_table-IsSqlMessage}

abbrev head_of : Bytes → Header
head_of bs = record {
  token = 4;
  status = 0;
  packet_size = 8 + length bs;
  spid = 0;
  packet_no = 0;
  pad = 0;
}

abbrev frame : Bytes → Frame
frame bs = record { head = head_of bs; payload = bs }

frame-IsFrame : (bs : Bytes) → length bs < 1000 → IsFrame (frame bs)
frame-IsFrame bs h = record { size = refl; small = omega arith; spid = omega arith }

-- A buffer with the bytes to come in two packets.
abbrev buf_of : Bytes → Bytes → Buf
buf_of bs cs = record {
  he = record {
    rw = record {
      conn = record {
        input = stream (frame bs ∷ frame cs ∷ []);
        closing = eof;
        writes = [];
        failure = none;
      };
      pb = holding [];
    };
    limit = none;
    sbuf = 0 ∷ 0 ∷ 0 ∷ 0 ∷ 0 ∷ 0 ∷ 0 ∷ 0 ∷ [];
    endianness = big_endian;
    charset = none;
    err = none;
  };
  h = head_of [];
  packet_size = 512;
  pe_order = little_endian;
  in_cancel = false;
  cancel_ch = [];
}

carries :
    (bs cs : Bytes)
    → length bs < 1000
    → length cs < 1000
    → Carrying (buf_of bs cs) (bs ++ (cs ++ []))
carries bs cs h k = record {
  frames = frame bs ∷ frame cs ∷ [];
  awaits = record {
    input = refl;
    frames = (frame-IsFrame bs h, (frame-IsFrame cs k, tt));
    calm = refl;
    no_error = refl;
    unlimited = refl;
    order = refl;
    scratch = refl;
  };
  same = refl;
}

abbrev first : Bytes
first = 1 ∷ 2 ∷ 3 ∷ []

abbrev second : Bytes
second = 4 ∷ 5 ∷ []

abbrev four : Bytes
four = 1 ∷ 2 ∷ 3 ∷ 4 ∷ []

abbrev zeros : Bytes
zeros = 0 ∷ 0 ∷ 0 ∷ 0 ∷ []

read_full-packets_example :
    (t : Buf) × (read_full (buf_of first second) zeros
      ≡ record { state = t; bytes = four; count = length four; err = none })
    × Carrying t (5 ∷ [])
read_full-packets_example =
    read_full-packets (buf_of first second) four (5 ∷ []) zeros refl
      (carries first second (omega arith) (omega arith))

skip-packets_example :
    (t : Buf) × (skip (length four) (buf_of first second) ≡ (t, none)) × Carrying t (5 ∷ [])
skip-packets_example =
    skip-packets four (5 ∷ []) (buf_of first second)
      (carries first second (omega arith) (omega arith))

abbrev message_bytes : Bytes
message_bytes = SqlMessage.wire little_endian none no_table

abbrev link : Encoder Buf
link = record {
  rw = buf_of (take 9 message_bytes) (drop 9 message_bytes);
  limit = none;
  sbuf = 0 ∷ 0 ∷ 0 ∷ 0 ∷ 0 ∷ 0 ∷ 0 ∷ 0 ∷ [];
  endianness = little_endian;
  charset = none;
  err = none;
}

read_sql_message-packets_example :
    ((SqlMessage.read_message link).0 ≡ (no_table, none))
    × Ready Carrying little_endian none [] (SqlMessage.read_message link).1
unfolding put
read_sql_message-packets_example =
    read_sql_message-packets little_endian none link no_table [] no_table-IsSqlMessage (record {
      holds = carries (take 9 message_bytes) (drop 9 message_bytes) (omega arith) (omega arith);
      no_error = refl;
      unlimited = refl;
      order = refl;
      same_charset = refl;
      scratch = refl;
    })

abbrev cancelling : Buf
cancelling =
    with_pb (15 ∷ 0 ∷ 0 ∷ 8 ∷ 0 ∷ 0 ∷ 0 ∷ 0 ∷ 33 ∷ [])
      (record (buf_of first second) { in_cancel = true; cancel_ch = some canceled ∷ [] })

cancelling-Cancels : Cancels (record (head_of []) { token = 15 }) (33 ∷ []) cancelling
unfolding put
cancelling-Cancels = record {
  begun = refl;
  small = omega arith;
  works = refl;
  pending = refl;
  fresh = refl;
  headers = record { no_error = refl; unlimited = refl; order = refl; scratch = refl };
}

send_pkt-cancelling_example :
    let t = (send_pkt 0 cancelling).0 in
    ((send_pkt 0 cancelling).1 ≡ none)
    × ((conn_of t).writes
        ≡ frame_bytes (cancel_frame (record (head_of []) { token = 15 }) (33 ∷ [])) ∷ [])
    × Cancels (record (cancelling.h) { status = 0 }) second (with_pb (pb_of t ++ second) t)
send_pkt-cancelling_example =
    send_pkt-cancelling (record (head_of []) { token = 15 }) (33 ∷ []) second cancelling
      cancelling-Cancels (omega arith)

-- A normal packet that acknowledges a cancellation, as the last of a message.
abbrev acknowledgement : Frame
acknowledgement = record { head = record (head_of []) { token = 15; status = 3 }; payload = [] }

abbrev cancelled_buf : Buf
cancelled_buf = record (buf_of first second) {
  he = record ((buf_of first second).he) {
    rw = record {
      conn = record {
        input = stream (frame first ∷ acknowledgement ∷ frame second ∷ []);
        closing = eof;
        writes = [];
        failure = none;
      };
      pb = holding [];
    };
  };
  in_cancel = true;
  cancel_ch = some canceled ∷ [];
}

process_cancel-acknowledged_example :
    ((process_cancel cancelled_buf).1 ≡ some canceled)
    × ((process_cancel cancelled_buf).0.cancel_ch ≡ [])
    × Awaits (process_cancel cancelled_buf).0 (frame second ∷ [])
process_cancel-acknowledged_example =
    process_cancel-acknowledged cancelled_buf (some canceled) [] (frame first ∷ []) acknowledgement
      (frame second ∷ []) refl
      (record {
        input = refl;
        frames = (
          frame-IsFrame first (omega arith),
          (
            record { size = refl; small = omega arith; spid = omega arith },
            (frame-IsFrame second (omega arith), tt),
          ),
        );
        calm = refl;
        no_error = refl;
        unlimited = refl;
        order = refl;
        scratch = refl;
      })
      refl (refl, tt) refl refl refl
