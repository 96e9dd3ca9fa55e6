-- ===== src/Packet/Conn.antt =====
-- The connection below the packets, `io.ReadWriter` of buffer.go, as what it will give and what it
-- was given. How it cuts the bytes that it gives is invisible behind io.ReadFull and io.CopyN, so
-- a Read gives all that it can.
use tds.Base.{
  ℕ, Option, none, some, List, [], ◌∷◌, ◌++◌, length, take, drop, min, Bytes, leb, if◌then◌else◌,
}
use tds.Golang.Errors.{Error}
use tds.Golang.Io.{Reading, Writing, ReadWriter}

-- `input` is what arrives, and `closing` the error of a Read after it. `writes` are the slices that
-- were written, and `failure`, where there is one, the count and the error of every later Write.
pub record Net : Type 0 where
  pub input : Bytes
  pub closing : Error
  pub writes : List Bytes
  pub failure : Option (ℕ × Error)

abbrev pub read_input : Net → Bytes → ℕ → Reading Net
read_input c [] k = record {
  state = c;
  bytes = [];
  count = 0;
  err = if leb k 0 then none else some c.closing;
}
read_input c (x ∷ xs) k = record {
  state = record c { input = drop k (x ∷ xs) };
  bytes = take k (x ∷ xs);
  count = length (take k (x ∷ xs));
  err = none;
}

abbrev pub write_output : Net → Bytes → Writing Net
write_output c bs = elim c.failure [
  | none ↦ record {
    state = record c { writes = c.writes ++ bs ∷ [] };
    count = length bs;
    err = none;
  }
  | some (n, e) ↦ record {
    state = record c { writes = c.writes ++ take n bs ∷ [] };
    count = min n (length bs);
    err = some e;
  }
]

instance abbrev pub net : ReadWriter Net
net = record { read = λ c k. read_input c c.input k; write = write_output; rounds = λ c. 1 }
