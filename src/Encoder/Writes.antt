-- ===== src/Encoder/Writes.antt =====
-- What the writing methods add to a stream.
pub mod Texts
use tds.Base.{
  ℕ, zero, suc, ◌%◌, ◌^◌, ◌<◌, ◌≤◌, ◌≡◌, refl, sym, ap, ◌∙◌, subst, Option, none, some, [], ◌∷◌,
  ◌++◌, length, drop, replicate, length-append, length-drop, append_assoc, append-nil, arith, Bytes,
  Bool-cases, inl, inr, ==_iff, eq-nil_of_length, ◌==◌, if◌then◌else◌,
}
use native.Mathlib.Nat.{mod-eq_of_lt}
use tds.Base.Int.{ℤ, u8, u16, u32, u64}
use tds.Golang.Order.{ByteOrder, put, length-put}
use tds.Golang.Io.{ReadWriter}
use tds.Encoder.Ops.{
  Charset, Encoder, M, ◌>>=◌, ◌>>◌, pure, unless_failed, write, write_scratch, write_order,
  write_byte, write_uint8, write_int8, write_uint16, write_int16, write_uint32, write_int32,
  write_uint64, write_int64, pad,
}
use tds.Encoder.Strings.{to_charset, write_string, write_len, write_string_with_len}
use tds.Encoder.Ready.{Sink, Ready}
use tds.Encoder.Texts.{encoded, IsLossless, IsText, text8, text16, text32}

unless_failed_ready :
    {S A : Type 0} (a : A) (m : M S A) (e : Encoder S) → e.err ≡ none → unless_failed a m e ≡ m e
unfolding unless_failed
unless_failed_ready a m e h = ground arith

module _ {S : Type 0} ⦃w : ReadWriter S⦄ (snk : Sink S) (o : ByteOrder) (cs : Option Charset) where
  -- The method adds `bs` to the stream and returns `a`.
  pub record Writes {A : Type 0} (m : M S A) (bs : Bytes) (a : A) : Type 0 where
    pub run :
        (e : Encoder S) (before : Bytes)
        → Ready snk.Holds o cs before e
        → ((m e).0 ≡ a) × Ready snk.Holds o cs (before ++ bs) (m e).1

  pub Writes-pure : {A : Type 0} (a : A) → Writes (pure a) [] a
  unfolding pure
  Writes-pure a = record { run = λ e before r. (refl, rw (append-nil before) r) }

  pub Writes-bind :
      {A B : Type 0} {m : M S A} (f : A → M S B) {bs ds : Bytes} {a : A} {b : B}
      → Writes m bs a
      → Writes (f a) ds b
      → Writes (m >>= f) (bs ++ ds) b
  unfolding ◌>>=◌
  Writes-bind {m} f {bs} {ds} {a} {b} hm hf = record {
    run = λ e before r.
        let h = hm.run e before r in
        rw (← append_assoc before bs ds) (
          subst
            (λ x.
              ((f x (m e).1).0 ≡ b) × Ready snk.Holds o cs ((before ++ bs) ++ ds) (f x (m e).1).1)
            (sym h.0) (hf.run (m e).1 (before ++ bs) h.1));
  }

  pub Writes-unless_failed :
      {A : Type 0} {m : M S A} {bs : Bytes} {a : A} (z : A)
      → Writes m bs a
      → Writes (unless_failed z m) bs a
  Writes-unless_failed {m} z h = record {
    run = λ e before r. rw (unless_failed_ready z m e r.no_error) (h.run e before r);
  }

  write_ready :
      (e : Encoder S) (bs : Bytes) (t : S)
      → e.err ≡ none
      → w.write e.rw bs ≡ record { state = t; count = length bs; err = none }
      → write bs e ≡ (length bs, record e { rw = t; err = none })
  unfolding write unless_failed
  write_ready e bs t no_error done = ground (arith, done)

  pub Writes-write : (bs : Bytes) → Writes (write bs) bs (length bs)
  Writes-write bs = record {
    run = λ e before r.
        let (t, done, holds) = snk.write_lem e.rw before bs r.holds in
        rw (write_ready e bs t r.no_error done) (
          refl,
          record {
            holds = holds;
            no_error = refl;
            unlimited = r.unlimited;
            order = r.order;
            same_charset = r.same_charset;
            scratch = r.scratch;
          },
        );
  }

  Writes-write_scratch :
      (bs : Bytes) (k : ℕ) → length bs ≡ k → k ≤ 8 → Writes (write_scratch bs k) bs tt
  unfolding write_scratch
  Writes-write_scratch bs k h room = Writes-unless_failed tt (record {
    run = λ e before r.
        let (same, after) =
          (Writes-write bs).run (record e { sbuf = bs ++ drop k e.sbuf }) before
            (record {
              holds = r.holds;
              no_error = r.no_error;
              unlimited = r.unlimited;
              order = r.order;
              same_charset = r.same_charset;
              scratch =
                  omega (arith, length-append bs (drop k e.sbuf), length-drop k e.sbuf, r.scratch);
            }) in
        (refl, after);
  })

  pub Writes-write_byte : (n : ℕ) → Writes (write_byte n) (n ∷ []) tt
  unfolding write_byte
  Writes-write_byte n = Writes-write_scratch (n ∷ []) 1 refl (omega arith)

  pub Writes-write_uint8 : (n : ℕ) → Writes (write_uint8 n) (n ∷ []) tt
  unfolding write_uint8
  Writes-write_uint8 n = Writes-write_scratch (n ∷ []) 1 refl (omega arith)

  pub Writes-write_int8 : (z : ℤ) → Writes (write_int8 z) (u8 z ∷ []) tt
  unfolding write_int8
  Writes-write_int8 z = Writes-write_scratch (u8 z ∷ []) 1 refl (omega arith)

  Writes-write_order : (k n : ℕ) → k ≤ 8 → Writes (write_order k n) (put o k n) tt
  unfolding write_order
  Writes-write_order k n room = record {
    run = λ e before r.
        subst
          (λ x.
            ((write_scratch (put x k n) k e).0 ≡ tt)
            × Ready snk.Holds o cs (before ++ put o k n) (write_scratch (put x k n) k e).1)
          (sym r.order)
          ((Writes-write_scratch (put o k n) k (length-put o k n) room).run e before r);
  }

  pub Writes-write_uint16 : (n : ℕ) → Writes (write_uint16 n) (put o 2 n) tt
  unfolding write_uint16
  Writes-write_uint16 n = Writes-write_order 2 n (omega arith)

  pub Writes-write_int16 : (z : ℤ) → Writes (write_int16 z) (put o 2 (u16 z)) tt
  unfolding write_int16
  Writes-write_int16 z = Writes-write_order 2 (u16 z) (omega arith)

  pub Writes-write_uint32 : (n : ℕ) → Writes (write_uint32 n) (put o 4 n) tt
  unfolding write_uint32
  Writes-write_uint32 n = Writes-write_order 4 n (omega arith)

  pub Writes-write_int32 : (z : ℤ) → Writes (write_int32 z) (put o 4 (u32 z)) tt
  unfolding write_int32
  Writes-write_int32 z = Writes-write_order 4 (u32 z) (omega arith)

  pub Writes-write_uint64 : (n : ℕ) → Writes (write_uint64 n) (put o 8 n) tt
  unfolding write_uint64
  Writes-write_uint64 n = Writes-write_order 8 n (omega arith)

  pub Writes-write_int64 : (z : ℤ) → Writes (write_int64 z) (put o 8 (u64 z)) tt
  unfolding write_int64
  Writes-write_int64 z = Writes-write_order 8 (u64 z) (omega arith)

  pub Writes-pad : (b n : ℕ) → Writes (pad b n) (replicate n b) tt
  unfolding pad
  Writes-pad b zero = record { run = λ e before r. (refl, rw (append-nil before) r) }
  Writes-pad b (suc n) = record {
    run = λ e before r.
        let h = (Writes-write_byte b).run e before r in
        rw (← append_assoc before (b ∷ []) (replicate n b))
          ((Writes-pad b n).run (write_byte b e).1 (before ++ b ∷ []) h.1);
  }
