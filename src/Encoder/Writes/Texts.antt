-- ===== src/Encoder/Writes/Texts.antt =====
-- Writing a text in the connection's charset, behind a length or alone.
use native.Mathlib.Nat.{mod-eq_of_lt}
use tds.Base.{
  ℕ, ◌^◌, ◌≡◌, refl, subst, Option, none, some, [], ◌∷◌, ◌++◌, length, append-nil, arith, Bytes,
  Bool-cases, inl, inr, ==_iff, eq-nil_of_length, ◌==◌, if◌then◌else◌,
}
use tds.Golang.Order.{ByteOrder, put}
use tds.Golang.Io.{ReadWriter}
use tds.Encoder.Ops.{Charset, Encoder, ◌>>=◌, pure, write}
use tds.Encoder.Strings.{to_charset, write_string, write_len, write_string_with_len}
use tds.Encoder.Ready.{Sink}
use tds.Encoder.Writes.{
  Writes, Writes-pure, Writes-bind, Writes-unless_failed, Writes-write, Writes-write_uint8,
  Writes-write_uint16, Writes-write_uint32,
}
use tds.Encoder.Texts.{encoded, IsLossless, IsText, text8, text16, text32}

module _ {S : Type 0} where
  to_charset-none : (s : Bytes) (e : Encoder S) → e.charset ≡ none → to_charset s e ≡ (s, e)
  unfolding to_charset
  to_charset-none s e h = ground arith

  to_charset-some :
      (c : Charset) (s : Bytes) (e : Encoder S)
      → e.charset ≡ some c
      → (c.encode s).1 ≡ none
      → to_charset s e ≡ ((c.encode s).0, record e { err = none })
  unfolding to_charset
  to_charset-some c s e h d = ground (arith, d)

module _ {S : Type 0} ⦃w : ReadWriter S⦄ (snk : Sink S) (o : ByteOrder) where
  Writes-to_charset :
      (cs : Option Charset) (s : Bytes)
      → IsLossless cs s
      → Writes snk o cs (to_charset s) [] (encoded cs s)
  Writes-to_charset none s h = record {
    run = λ e before r. rw (to_charset-none s e r.same_charset, append-nil before) (refl, r);
  }
  Writes-to_charset (some c) s h = record {
    run = λ e before r.
        rw (to_charset-some c s e r.same_charset h.0, append-nil before)
          (
            refl,
            record {
              holds = r.holds;
              no_error = refl;
              unlimited = r.unlimited;
              order = r.order;
              same_charset = r.same_charset;
              scratch = r.scratch;
            },
          );
  }

  module _ (cs : Option Charset) where
    pub Writes-write_string :
        (s : Bytes)
        → IsLossless cs s
        → Writes snk o cs (write_string s) (encoded cs s) (length (encoded cs s))
    unfolding write_string
    Writes-write_string s h =
        Writes-unless_failed snk o cs 0
          (Writes-bind snk o cs _ (Writes-to_charset cs s h) (Writes-write snk o cs (encoded cs s)))

    write_rest :
        (bs : Bytes)
        → Writes snk o cs (if length bs == 0 then pure tt else (write bs >>= λ n. pure tt)) bs tt
    write_rest bs = elim (Bool-cases (length bs == 0)) [
      | inl e ↦ rw (e, eq-nil_of_length bs ((==_iff _ _).0 e)) (Writes-pure snk o cs tt)
      | inr e ↦ rw e (
          subst (λ ds. Writes snk o cs (write bs >>= λ n. pure tt) ds tt) (append-nil bs)
            (Writes-bind snk o cs _ (Writes-write snk o cs bs) (Writes-pure snk o cs tt)))
    ]

    Writes-write_string_with_len :
        (s : Bytes) (size : ℕ) (head : Bytes)
        → IsLossless cs s
        → Writes snk o cs (write_len size (length (encoded cs s))) head tt
        → Writes snk o cs (write_string_with_len size s) (head ++ encoded cs s) tt
    unfolding write_string_with_len
    Writes-write_string_with_len s size head h len = Writes-unless_failed snk o cs tt (
        Writes-bind snk o cs _ (Writes-to_charset cs s h) (
          Writes-unless_failed snk o cs tt (
            Writes-bind snk o cs _ len
              (Writes-unless_failed snk o cs tt (write_rest (encoded cs s))))))

    pub Writes-string8 :
        (s : Bytes)
        → IsText cs (2 ^ 8) s
        → Writes snk o cs (write_string_with_len 8 s) (text8 cs s) tt
    Writes-string8 s t =
        Writes-write_string_with_len s 8 (length (encoded cs s) ∷ []) t.lossless
          (unfold write_len in rw (mod-eq_of_lt t.short) (Writes-write_uint8 snk o cs _))

    pub Writes-string16 :
        (s : Bytes)
        → IsText cs (2 ^ 16) s
        → Writes snk o cs (write_string_with_len 16 s) (text16 o cs s) tt
    Writes-string16 s t =
        Writes-write_string_with_len s 16 (put o 2 (length (encoded cs s))) t.lossless
          (unfold write_len in rw (mod-eq_of_lt t.short) (Writes-write_uint16 snk o cs _))

    pub Writes-string32 :
        (s : Bytes)
        → IsText cs (2 ^ 32) s
        → Writes snk o cs (write_string_with_len 32 s) (text32 o cs s) tt
    Writes-string32 s t =
        Writes-write_string_with_len s 32 (put o 4 (length (encoded cs s))) t.lossless
          (unfold write_len in rw (mod-eq_of_lt t.short) (Writes-write_uint32 snk o cs _))
