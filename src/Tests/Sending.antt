-- ===== src/Tests/Sending.antt =====
-- Concrete messages that are sent over a connection, and the buffer that reads at its other end.
use tds.Base.{◌≡◌, refl, false, none, List, [], ◌∷◌, length, Bytes, arith, take, drop, replicate}
use tds.Base.Int.{pos}
use tds.Golang.Errors.{eof}
use tds.Golang.Order.{little_endian, big_endian}
use tds.Golang.Buffer.{buffer, holding}
use tds.Messages.Codec.{buffer_sink}
use tds.Messages.Tokens.{new_msg, return_status_token, done_token}
use tds.Messages.ReturnStatus
use tds.Messages.Done
use tds.Packet.{Buf, buf, conn_of, write_packets, send_pkt, init_pkt}
use tds.Golang.Io.{read_full}
use tds.Packet.Types.{normal_packet}
use tds.Packet.Receive.Through.{Carrying}
use tds.Packet.Send.Filling.{Filling, Wrote}
use tds.Packet.Send.Delivery.{write_packets-Filling, Delivered, read_full-write_packets, joined}
use tds.Packet.Messages.{Link, Outgoing, send}
use tds.Packet.Messages.Sending.{
  Idle, AllWrite, carried, outgoing, init_pkt-Filling, send-Delivered,
}

-- A buffer with packets of 20 bytes and nothing written.
abbrev empty_buf : Buf
empty_buf = record {
  he = record {
    rw = record {
      conn = record { input = []; closing = eof; writes = []; failure = none };
      pb = holding [];
    };
    limit = none;
    sbuf = 0 ∷ 0 ∷ 0 ∷ 0 ∷ 0 ∷ 0 ∷ 0 ∷ 0 ∷ [];
    endianness = big_endian;
    charset = none;
    err = none;
  };
  h = record { token = 0; status = 0; packet_size = 0; spid = 0; packet_no = 0; pad = 0 };
  packet_size = 20;
  pe_order = little_endian;
  in_cancel = false;
  cancel_ch = [];
}

abbrev idle : Link
idle = record {
  pe = record {
    rw = empty_buf;
    limit = none;
    sbuf = 0 ∷ 0 ∷ 0 ∷ 0 ∷ 0 ∷ 0 ∷ 0 ∷ 0 ∷ [];
    endianness = little_endian;
    charset = none;
    err = none;
  };
  me = record {
    rw = holding [];
    limit = none;
    sbuf = 0 ∷ 0 ∷ 0 ∷ 0 ∷ 0 ∷ 0 ∷ 0 ∷ 0 ∷ [];
    endianness = little_endian;
    charset = none;
    err = none;
  };
}

idle-Idle : Idle little_endian none idle
idle-Idle = record {
  pe = record {
    holds = tt;
    no_error = refl;
    unlimited = refl;
    order = refl;
    same_charset = refl;
    scratch = refl;
  };
  me = record {
    holds = tt;
    no_error = refl;
    unlimited = refl;
    order = refl;
    same_charset = refl;
    scratch = refl;
  };
  room = omega arith;
  small = omega arith;
  spid = omega arith;
  headers = record { no_error = refl; unlimited = refl; order = refl; scratch = refl };
  works = refl;
  calm = refl;
}

abbrev status : ReturnStatus.ReturnStatus
status = record { status = pos 7 }

abbrev done : Done.Done
done = record { status = pos 16; tran_state = pos 2; count = pos 3 }

abbrev two : List (Outgoing × Bytes)
two =
    (
      record { msg = new_msg return_status_token; write = ReturnStatus.write_message status },
      ReturnStatus.wire little_endian none status,
    )
    ∷ (
      record { msg = new_msg done_token; write = Done.write_message done },
      Done.wire little_endian none done,
    )
    ∷ []

two-AllWrite : AllWrite little_endian none two
two-AllWrite = (
  ReturnStatus.Writes-write_message little_endian none status buffer_sink,
  (Done.Writes-write_message little_endian none done buffer_sink, tt),
)

send-Delivered_example :
    ((send normal_packet (outgoing two) idle).1 ≡ none)
    × Delivered [] 20
        (conn_of (send normal_packet (outgoing two) idle).0.pe.rw).writes
        (carried little_endian two)
send-Delivered_example =
    send-Delivered little_endian none normal_packet two idle idle-Idle two-AllWrite

-- Thirty bytes, which take three packets.
abbrev thirty : Bytes
thirty =
    1 ∷ 2 ∷ 3 ∷ 4 ∷ 5 ∷ 6 ∷ 7 ∷ 8 ∷ 9 ∷ 10 ∷ 11 ∷ 12 ∷ 13 ∷ 14 ∷ 15 ∷ 16 ∷ 17 ∷ 18 ∷ 19 ∷ 20 ∷ 21
    ∷ 22 ∷ 23 ∷ 24 ∷ 25 ∷ 26 ∷ 27 ∷ 28 ∷ 29 ∷ 30 ∷ []

begun-Filling : Filling 20 [] (init_pkt normal_packet empty_buf) []
begun-Filling = init_pkt-Filling little_endian none idle normal_packet idle-Idle

write_packets-Filling_example :
    Wrote 20 [] thirty (length thirty) (write_packets (init_pkt normal_packet empty_buf) thirty)
write_packets-Filling_example =
    write_packets-Filling 20 [] (init_pkt normal_packet empty_buf) [] thirty begun-Filling

-- The same buffer at the other end of the connection, which was sent those bytes in one message.
abbrev listener : Buf
listener = record empty_buf {
  he = record (empty_buf.he) {
    rw = record {
      conn = record {
        input =
            joined
              (conn_of
                (send_pkt 1
                  (write_packets (init_pkt normal_packet empty_buf) thirty).state).0).writes;
        closing = eof;
        writes = [];
        failure = none;
      };
      pb = holding [];
    };
  };
}

read_full-write_packets_example :
    ((write_packets (init_pkt normal_packet empty_buf) thirty).err ≡ none)
    × ((send_pkt 1 (write_packets (init_pkt normal_packet empty_buf) thirty).state).1 ≡ none)
    × ((t : Buf) × (read_full listener (replicate 25 0) ≡ record {
      state = t;
      bytes = take 25 thirty;
      count = length (take 25 thirty);
      err = none;
    })
        × Carrying t (drop 25 thirty))
read_full-write_packets_example =
    read_full-write_packets 20 (init_pkt normal_packet empty_buf) listener [] thirty
      (take 25 thirty) (drop 25 thirty) (replicate 25 0) begun-Filling
      (record {
        empty = refl;
        calm = refl;
        no_error = refl;
        unlimited = refl;
        order = refl;
        scratch = refl;
      })
      refl refl refl
