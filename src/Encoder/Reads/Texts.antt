-- ===== src/Encoder/Reads/Texts.antt =====
-- Reading a text back from its bytes.
use tds.Base.{
  ℕ, ◌^◌, ◌≤◌, ◌≡◌, refl, sym, Option, none, some, [], ◌∷◌, ◌++◌, length, replicate,
  length-replicate, append-nil, subst, arith, Bytes, Bool-cases, inl, inr, eq-nil_of_length,
  ltb-false, ==_iff, ◌==◌, if◌then◌else◌,
}
use tds.Base.Int.{pos}
use tds.Golang.Order.{ByteOrder, put}
use tds.Golang.Io.{ReadWriter}
use tds.Encoder.Ops.{Charset, Encoder, ◌>>=◌, pure, unless_failed, read}
use tds.Encoder.Strings.{max_text_size, from_charset, read_string_with_len, read_len, read_string}
use tds.Encoder.Ready.{Source}
use tds.Encoder.Reads.{
  Reads, Reads-pure, Reads-bind, Reads-read, Reads-unless_failed, Reads-uint8, Reads-uint16,
  Reads-uint32,
}
use tds.Encoder.Texts.{encoded, IsLossless, IsText, encoded-nil, text8, text16, text32}

module _ {S : Type 0} where
  from_charset-none : (s : Bytes) (e : Encoder S) → e.charset ≡ none → from_charset s e ≡ (s, e)
  unfolding from_charset
  from_charset-none s e h = ground arith

  from_charset-some :
      (c : Charset) (bs s : Bytes) (e : Encoder S)
      → e.charset ≡ some c
      → c.decode bs ≡ (s, none)
      → from_charset bs e ≡ (s, record e { err = none })
  unfolding from_charset
  from_charset-some c bs s e h d = ground (arith, d)

module _ {S : Type 0} ⦃w : ReadWriter S⦄ (src : Source S) (o : ByteOrder) where
  Reads-from_charset :
      (cs : Option Charset) (s : Bytes)
      → IsLossless cs s
      → Reads src o cs (from_charset (encoded cs s)) [] s
  Reads-from_charset none s h = record {
    run = λ e rest r. rw (from_charset-none s e r.same_charset) (refl, r);
  }
  Reads-from_charset (some c) s h = record {
    run = λ e rest r. rw (from_charset-some c (c.encode s).0 s e r.same_charset h.1) (
      refl,
      record {
        holds = r.holds;
        no_error = refl;
        unlimited = r.unlimited;
        order = r.order;
        same_charset = r.same_charset;
        scratch = r.scratch;
      },
    );
  }

  module _ (cs : Option Charset) where
    pub Reads-read_string_with_len :
        (s : Bytes)
        → IsLossless cs s
        → length (encoded cs s) ≤ max_text_size
        → Reads src o cs (read_string_with_len (pos (length (encoded cs s)))) (encoded cs s) s
    unfolding read_string_with_len
    Reads-read_string_with_len s h small = elim (Bool-cases (length (encoded cs s) == 0)) [
      | inl e ↦
          let n = length (encoded cs s) in
          let none_left : length (encoded cs s) ≡ 0 = (==_iff _ _).0 e in
          rw
            (
              ltb-false max_text_size n small,
              e,
              eq-nil_of_length (encoded cs s) none_left,
              encoded-nil cs s h none_left,
            )
            (Reads-unless_failed src o cs [] (Reads-pure src o cs []))
      | inr e ↦
          let n = length (encoded cs s) in
          rw (ltb-false max_text_size n small, e)
            (Reads-unless_failed src o cs [] (
              subst
                (λ bs.
                  Reads src o cs (read (replicate n 0) >>= λ ds. unless_failed [] (from_charset ds))
                    bs s)
                (append-nil (encoded cs s))
                (Reads-bind src o cs _
                  (Reads-read src o cs (encoded cs s) (replicate n 0) (sym (length-replicate n 0)))
                  (Reads-unless_failed src o cs [] (Reads-from_charset cs s h)))))
    ]

    -- `ReadString` behind the length.
    read_rest :
        (s : Bytes)
        → IsLossless cs s
        → length (encoded cs s) ≤ max_text_size
        → let n = length (encoded cs s) in
          Reads src o cs {A = Bytes × ℕ}
            (if n == 0 then pure ([], n) else (read_string_with_len (pos n) >>= λ t. pure (t, n)))
            (encoded cs s)
            (s, n)
    read_rest s h small = elim (Bool-cases (length (encoded cs s) == 0)) [
      | inl e ↦
          let none_left : length (encoded cs s) ≡ 0 = (==_iff _ _).0 e in
          rw (e, eq-nil_of_length (encoded cs s) none_left, encoded-nil cs s h none_left)
            (Reads-pure src o cs ([], 0))
      | inr e ↦
          let n = length (encoded cs s) in
          rw e (
            subst
              (λ bs.
                Reads src o cs {A = Bytes × ℕ} (read_string_with_len (pos n) >>= λ t. pure (t, n))
                  bs (s, n))
              (append-nil (encoded cs s))
              (Reads-bind src o cs _ (Reads-read_string_with_len s h small)
                (Reads-pure src o cs (s, n))))
    ]

    Reads-read_string :
        (s : Bytes) (size : ℕ) (head : Bytes)
        → IsLossless cs s
        → length (encoded cs s) ≤ max_text_size
        → Reads src o cs (read_len size) head (length (encoded cs s))
        → Reads src o cs (read_string size) (head ++ encoded cs s) (s, length (encoded cs s))
    unfolding read_string
    Reads-read_string s size head h small len =
        Reads-unless_failed src o cs _
          (Reads-bind src o cs _ len (Reads-unless_failed src o cs _ (read_rest s h small)))

    pub Reads-string8 :
        (s : Bytes)
        → IsText cs (2 ^ 8) s
        → Reads src o cs (read_string 8) (text8 cs s) (s, length (encoded cs s))
    Reads-string8 s t =
        Reads-read_string s 8 (length (encoded cs s) ∷ []) t.lossless t.readable
          (unfold read_len in Reads-uint8 src o cs (length (encoded cs s)))

    pub Reads-string16 :
        (s : Bytes)
        → IsText cs (2 ^ 16) s
        → Reads src o cs (read_string 16) (text16 o cs s) (s, length (encoded cs s))
    Reads-string16 s t =
        Reads-read_string s 16 (put o 2 (length (encoded cs s))) t.lossless t.readable
          (unfold read_len in Reads-uint16 src o cs (length (encoded cs s)) t.short)

    pub Reads-string32 :
        (s : Bytes)
        → IsText cs (2 ^ 32) s
        → Reads src o cs (read_string 32) (text32 o cs s) (s, length (encoded cs s))
    Reads-string32 s t =
        Reads-read_string s 32 (put o 4 (length (encoded cs s))) t.lossless t.readable
          (unfold read_len in Reads-uint32 src o cs (length (encoded cs s)) t.short)
