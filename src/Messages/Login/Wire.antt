-- ===== src/Messages/Login/Wire.antt =====
-- The bytes of a login message, and a text of fixed size read back.
use tds.Base.{
  ℕ, ◌+◌, ◌-◌, ◌^◌, ◌<◌, ◌≤◌, ◌≡◌, refl, ap, ◌∙◌, subst, true, false, none, [], ◌∷◌, ◌++◌, length,
  take, take_all, take-append, replicate, length-append, length-replicate, length-take, Bytes,
  ltb-false, arith, append_assoc,
}
use native.Mathlib.Nat.{mod-eq_of_lt}
use tds.Base.Int.{pos, u8, i8, IsInt8}
use tds.Golang.Order.{ByteOrder}
use tds.Golang.Io.{ReadWriter}
use tds.Golang.Buffer.{Buffer, buffer}
use tds.Encoder.Ops.{Encoder, ◌>>=◌, take_err, write_int8, int8}
use tds.Encoder.Ready.{Source, Sink, Ready}
use tds.Encoder.Reads.{Reads, Reads-bind, Reads-pure, Reads-read, Reads-int8}
use tds.Encoder.Writes.{
  Writes, Writes-bind, Writes-pure, Writes-pad, Writes-write, Writes-write_byte, Writes-write_int8,
  Writes-write_uint8,
}
use tds.Encoder.Writes.Texts.{Writes-write_string}
use tds.Messages.Codec.{
  Carries, buffer_source, buffer_sink, Reads-last, Writes-take_err, Writes-last, Recovers, recovers,
}
use tds.Messages.Login.{
  Login, Texts, write_fixed, read_fixed, write_types, write_versions, write_options, write_message,
}

-- The bytes of a text of fixed size, with no charset.
abbrev pub fixed_bytes : Bytes → ℕ → Bytes
fixed_bytes s size = take size s ++ replicate (size - length (take size s)) 0

abbrev pub sized_bytes : Bytes → ℕ → Bytes
sized_bytes s size = fixed_bytes s size ++ (length (take size s) ∷ [])

abbrev types_bytes : Bytes
types_bytes =
    (3 ∷ [])
    ++ ((1 ∷ [])
        ++ ((6 ∷ []) ++ ((10 ∷ []) ++ ((9 ∷ []) ++ ((1 ∷ []) ++ ((0 ∷ []) ++ (replicate 9 0)))))))

abbrev versions_bytes : Login → Bytes
versions_bytes l =
    (0 ∷ [])
    ++ ((0 ∷ [])
        ++ (fixed_bytes [] 254
            ++ (l.protocol_version
                ++ (sized_bytes l.library 10
                    ++ (l.library_version ++ ((0 ∷ []) ++ ((13 ∷ []) ++ ((17 ∷ [])))))))))

abbrev options_bytes : Texts → Login → Bytes
options_bytes x l =
    sized_bytes l.language 30
    ++ ((1 ∷ [])
        ++ (replicate 2 0
            ++ ((l.encrypted ∷ [])
                ++ (replicate 10 0
                    ++ (sized_bytes l.charset 30
                        ++ ((1 ∷ [])
                            ++ (sized_bytes (x.decimal l.packet_size) 6 ++ (replicate 4 0))))))))

-- The bytes of a login.
abbrev pub login_bytes : Texts → Login → Bytes
login_bytes x l =
    sized_bytes l.client_host 30
    ++ (sized_bytes l.user 30
        ++ (sized_bytes l.password 30
            ++ (sized_bytes x.pid 30
                ++ (types_bytes
                    ++ (sized_bytes l.app 30
                        ++ (sized_bytes l.server 30
                            ++ (versions_bytes l ++ (options_bytes x l))))))))

u8-i8_short : (n : ℕ) → n < 2 ^ 7 → u8 (i8 n) ≡ n
u8-i8_short n h = ground arith

length-take_le : (s : Bytes) (size : ℕ) → length (take size s) ≤ size
length-take_le s size = omega (arith, length-take size s)

pub length-fixed : (s : Bytes) (size : ℕ) → length (fixed_bytes s size) ≡ size
length-fixed s size = omega (
  arith,
  length-append (take size s) (replicate (size - length (take size s)) 0),
  length-replicate {A = ℕ} (size - length (take size s)) 0,
  length-take_le s size,
)

pub length-sized : (s : Bytes) (size : ℕ) → length (sized_bytes s size) ≡ size + 1
length-sized s size =
    omega
      (arith, length-append (fixed_bytes s size) (length (take size s) ∷ []), length-fixed s size)

length-versions :
    (l : Login)
    → length l.protocol_version ≡ 4
    → length l.library_version ≡ 4
    → length (versions_bytes l) ≡ 278
length-versions l p q =
    let tail = l.library_version ++ (0 ∷ 13 ∷ 17 ∷ []) in
    omega (
      arith,
      length-append (fixed_bytes [] 254) (l.protocol_version ++ (sized_bytes l.library 10 ++ tail)),
      length-fixed [] 254,
      length-append l.protocol_version (sized_bytes l.library 10 ++ tail),
      length-append (sized_bytes l.library 10) tail,
      length-sized l.library 10,
      length-append l.library_version (0 ∷ 13 ∷ 17 ∷ []),
    )

-- A text of 30 bytes and what follows it.
length-then :
    (s : Bytes) (size : ℕ) (rest : Bytes) (k : ℕ)
    → length rest ≡ k
    → length (sized_bytes s size ++ rest) ≡ size + 1 + k
length-then s size rest k e =
    omega (arith, e, length-append (sized_bytes s size) rest, length-sized s size)

length-options : (x : Texts) (l : Login) → length (options_bytes x l) ≡ 88
length-options x l =
    let end : Bytes = sized_bytes (x.decimal l.packet_size) 6 ++ replicate 4 0 in
    let last = length-then (x.decimal l.packet_size) 6 (replicate 4 0) 4 refl in
    let middle = length-then l.charset 30 ((1 ∷ []) ++ end) 12 (omega (arith, last)) in
    length-then l.language 30
      ((1 ∷ [])
        ++ (replicate 2 0
            ++ ((l.encrypted ∷ [])
                ++ (replicate 10 0 ++ (sized_bytes l.charset 30 ++ ((1 ∷ []) ++ end))))))
      57 (omega (arith, middle))

length-login :
    (x : Texts) (l : Login)
    → length l.protocol_version ≡ 4
    → length l.library_version ≡ 4
    → length (login_bytes x l) ≡ 568
length-login x l p q =
    let tail : Bytes = versions_bytes l ++ options_bytes x l in
    let front : length tail ≡ 366 = omega (
      arith,
      length-append (versions_bytes l) (options_bytes x l),
      length-versions l p q,
      length-options x l,
    ) in
    let server : Bytes = sized_bytes l.server 30 ++ tail in
    let back = length-then l.app 30 server 397 (length-then l.server 30 tail 366 front) in
    let types : Bytes = types_bytes ++ (sized_bytes l.app 30 ++ server) in
    let pid : Bytes = sized_bytes x.pid 30 ++ types in
    let password : Bytes = sized_bytes l.password 30 ++ pid in
    length-then l.client_host 30 (sized_bytes l.user 30 ++ password) 537 (
      length-then l.user 30 password 506
        (length-then l.password 30 pid 475 (length-then x.pid 30 types 444 (omega (arith, back)))))

module _ {S : Type 0} ⦃w : ReadWriter S⦄ (o : ByteOrder) where
  Writes-sized :
      (snk : Sink S) (s : Bytes) (size : ℕ)
      → size < 2 ^ 7
      → Writes snk o none (write_fixed s size true) (sized_bytes s size) (length (take size s))
  unfolding write_fixed
  Writes-sized snk s size h =
      let n = length (take size s) in
      rw (append_assoc (take size s) (replicate (size - n) 0) (n ∷ [])) (
        Writes-bind snk o none _ (Writes-write_string snk o none (take size s) tt) (
          Writes-bind snk o none _ (Writes-pad snk o none 0 (size - n)) (
            Writes-last snk o none _
              (subst (λ k. Writes snk o none (write_int8 (i8 n)) (k ∷ []) tt)
                (u8-i8_short n (omega (arith, h, length-take_le s size)))
                (Writes-write_int8 snk o none (i8 n)))
              (Writes-pure snk o none n))))

  Writes-zeros :
      (snk : Sink S) → Writes snk o none (write_fixed [] 254 false) (fixed_bytes [] 254) 0
  unfolding write_fixed
  Writes-zeros snk = Writes-bind snk o none _ (Writes-write_string snk o none [] tt) (
      Writes-last snk o none _ (Writes-pad snk o none 0 254)
        (Writes-last snk o none _ (Writes-pure snk o none tt) (Writes-pure snk o none 0)))

  Writes-types : (snk : Sink S) → Writes snk o none write_types types_bytes tt
  unfolding write_types
  Writes-types snk = Writes-bind snk o none _ (Writes-write_int8 snk o none (pos 3)) (
      Writes-bind snk o none _ (Writes-write_int8 snk o none (pos 1)) (
        Writes-bind snk o none _ (Writes-write_int8 snk o none (pos 6)) (
          Writes-bind snk o none _ (Writes-write_int8 snk o none (pos 10)) (
            Writes-bind snk o none _ (Writes-write_int8 snk o none (pos 9)) (
              Writes-bind snk o none _ (Writes-write_int8 snk o none (pos 1)) (
                Writes-bind snk o none _ (Writes-write_int8 snk o none (pos 0))
                  (Writes-pad snk o none 0 9)))))))

  Writes-versions :
      (snk : Sink S) (l : Login) → Writes snk o none (write_versions l) (versions_bytes l) tt
  unfolding write_versions
  Writes-versions snk l = Writes-bind snk o none _ (Writes-write_byte snk o none 0) (
      Writes-bind snk o none _ (Writes-write_int8 snk o none (pos 0)) (
        Writes-bind snk o none _ (Writes-zeros snk) (
          Writes-bind snk o none _ (Writes-write snk o none l.protocol_version) (
            Writes-bind snk o none _ (Writes-sized snk l.library 10 (omega arith)) (
              Writes-bind snk o none _ (Writes-write snk o none l.library_version) (
                Writes-bind snk o none _ (Writes-write_int8 snk o none (pos 0)) (
                  Writes-bind snk o none _ (Writes-write_int8 snk o none (pos 13))
                    (Writes-write_int8 snk o none (pos 17)))))))))

  Writes-options :
      (snk : Sink S) (x : Texts) (l : Login)
      → Writes snk o none (write_options x l) (options_bytes x l) none
  unfolding write_options
  Writes-options snk x l = Writes-bind snk o none _ (Writes-sized snk l.language 30 (omega arith)) (
      Writes-bind snk o none _ (Writes-write_int8 snk o none (pos 1)) (
        Writes-bind snk o none _ (Writes-pad snk o none 0 2) (
          Writes-bind snk o none _ (Writes-write_uint8 snk o none l.encrypted) (
            Writes-bind snk o none _ (Writes-pad snk o none 0 10) (
              Writes-bind snk o none _ (Writes-sized snk l.charset 30 (omega arith)) (
                Writes-bind snk o none _ (Writes-write_int8 snk o none (pos 1)) (
                  Writes-bind snk o none _
                    (Writes-sized snk (x.decimal l.packet_size) 6 (omega arith))
                    (Writes-last snk o none _ (Writes-pad snk o none 0 4)
                      (Writes-take_err snk o none)))))))))

  pub Writes-write_message :
      (snk : Sink S) (x : Texts) (l : Login)
      → Writes snk o none (write_message x l) (login_bytes x l) none
  unfolding write_message
  Writes-write_message snk x l =
      Writes-bind snk o none _ (Writes-sized snk l.client_host 30 (omega arith)) (
        Writes-bind snk o none _ (Writes-sized snk l.user 30 (omega arith)) (
          Writes-bind snk o none _ (Writes-sized snk l.password 30 (omega arith)) (
            Writes-bind snk o none _ (Writes-sized snk x.pid 30 (omega arith)) (
              Writes-bind snk o none _ (Writes-types snk) (
                Writes-bind snk o none _ (Writes-sized snk l.app 30 (omega arith)) (
                  Writes-bind snk o none _ (Writes-sized snk l.server 30 (omega arith)) (
                    Writes-bind snk o none _ (Writes-versions snk l) (Writes-options snk x l))))))))

  Reads-sized :
      (src : Source S) (s : Bytes) (size : ℕ)
      → length s ≤ size
      → size < 2 ^ 7
      → Reads src o none (read_fixed size) (sized_bytes s size) (s, none)
  unfolding read_fixed
  Reads-sized src s size h small =
      let n = length s in
      let whole : take size s ≡ s = take_all size s h in
      let same : length (s ++ replicate (size - n) 0) ≡ length (replicate {A = ℕ} size 0) = omega (
        arith,
        length-append s (replicate (size - n) 0),
        length-replicate {A = ℕ} (size - n) 0,
        length-replicate {A = ℕ} size 0,
      ) in
      let short : n < 2 ^ 8 = omega (arith, h, small) in
      let fits : IsInt8 (pos n) = (omega (arith, h, small), omega arith) in
      rw whole (
        Reads-bind src o none _
          (Reads-read src o none (s ++ replicate (size - n) 0) (replicate size 0) same)
          (Reads-last src o none _
            (subst (λ k. Reads src o none int8 (k ∷ []) (pos n)) (mod-eq_of_lt short)
              (Reads-int8 src o none (pos n) fits))
            (rw (ltb-false size n h, take-append s (replicate (size - n) 0))
              (Reads-pure src o none (s, none)))))

-- A text of fixed size written to a buffer is read back from it unchanged, with no error and nothing left over, if it is
-- no longer than its size, the size is below 128 and there is no charset.
read-write_fixed :
    (o : ByteOrder) (e : Encoder Buffer) (s : Bytes) (size : ℕ)
    → Ready Carries o none [] e
    → length s ≤ size
    → size < 2 ^ 7
    → Recovers o none (write_fixed s size true >>= λ n. take_err) (read_fixed size) s e
read-write_fixed o e s size r h small =
    recovers
      (Writes-last buffer_sink o none _ (Writes-sized o buffer_sink s size small)
        (Writes-take_err buffer_sink o none))
      (Reads-sized o buffer_source s size h small) r

-- With no charset, a login is written with no error, and its bytes are 568, whatever its texts are and however long, if
-- the versions of the protocol and the library have four bytes each.
pub length-write_message :
    (o : ByteOrder) (e : Encoder Buffer) (x : Texts) (l : Login) (before : Bytes)
    → Ready Carries o none before e
    → length l.protocol_version ≡ 4
    → length l.library_version ≡ 4
    → ((write_message x l e).0 ≡ none)
      × (length (write_message x l e).1.rw.unread ≡ length before + 568)
length-write_message o e x l before r p q =
    let (wrote, after) = (Writes-write_message o buffer_sink x l).run e before r in
    (
      wrote,
      ap (λ (b : Buffer). length b.unread) after.holds
          ∙ length-append before (login_bytes x l)
          ∙ ap (λ n. length before + n) (length-login x l p q),
    )
