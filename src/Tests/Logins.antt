-- ===== src/Tests/Logins.antt =====
-- A concrete login.
use tds.Base.{◌≡◌, refl, none, [], ◌∷◌, length}
use tds.Base.Int.{pos}
use tds.Golang.Order.{little_endian}
use tds.Golang.Buffer.{buffer}
use tds.Messages.Login.{Login, Texts, write_message}
use tds.Messages.Login.Wire.{length-write_message}
use tds.Tests.Wires.{encoder, encoder-Ready, master}

abbrev texts : Texts
texts = record { decimal = λ z. 53 ∷ 49 ∷ 50 ∷ []; pid = 49 ∷ 50 ∷ [] }

abbrev login : Login
login = record {
  client_host = master;
  user = master;
  password = [];
  app = master;
  server = master;
  protocol_version = 5 ∷ 0 ∷ 0 ∷ 0 ∷ [];
  library = master;
  library_version = 1 ∷ 0 ∷ 0 ∷ 0 ∷ [];
  language = [];
  encrypted = 161;
  charset = [];
  packet_size = pos 512;
}

length-write_message_example :
    ((write_message texts login encoder).0 ≡ none)
    × (length (write_message texts login encoder).1.rw.unread ≡ 568)
length-write_message_example =
    length-write_message little_endian encoder texts login [] encoder-Ready refl refl
