-- ===== src/Encoder/Reads.antt =====
-- What the reading methods do with a stream that begins with the bytes they want.
pub mod Texts
use tds.Base.{
  ℕ, zero, suc, ◌+◌, ◌*◌, ◌-◌, ◌%◌, ◌^◌, ◌≤◌, ◌<◌, ◌≡◌, refl, sym, ap, ◌∙◌, subst, Option, none,
  some, List, [], ◌∷◌, ◌++◌, length, take, drop, get_or, replicate, length-take, length-drop,
  length-append, append_assoc, arith, Bytes,
}
use tds.Base.Int.{
  ℤ, u8, u16, u32, u64, i8, i16, i32, i64, IsInt8, IsInt16, IsInt32, IsInt64, i8-u8, i16-u16,
  i32-u32, i64-u64, u16-lt, u32-lt, u64-lt,
}
use tds.Golang.Order.{ByteOrder, put, get, get-put, length-put}
use tds.Golang.Io.{ReadWriter, read_full}
use tds.Encoder.Ops.{
  Charset, Encoder, M, ◌>>=◌, ◌>>◌, pure, read, fill_scratch, read_order, uint8, unless_failed,
  read_byte, uint16, uint32, uint64, int8, int16, int32, int64,
}
use tds.Encoder.Ready.{Source, Ready}

unless_failed_ready :
    {S A : Type 0} (a : A) (m : M S A) (e : Encoder S) → e.err ≡ none → unless_failed a m e ≡ m e
unfolding unless_failed
unless_failed_ready a m e h = ground arith

module _ {S : Type 0} ⦃w : ReadWriter S⦄ (src : Source S) (o : ByteOrder)
    (cs : Option Charset) where
  -- From a stream that begins with `bs` the method returns `a` and takes `bs` off.
  pub record Reads {A : Type 0} (m : M S A) (bs : Bytes) (a : A) : Type 0 where
    pub run :
        (e : Encoder S) (rest : Bytes)
        → Ready src.Holds o cs (bs ++ rest) e
        → ((m e).0 ≡ a) × Ready src.Holds o cs rest (m e).1

  pub Reads-pure : {A : Type 0} (a : A) → Reads (pure a) [] a
  unfolding pure
  Reads-pure a = record { run = λ e rest r. (refl, r) }

  pub Reads-bind :
      {A B : Type 0} {m : M S A} (f : A → M S B) {bs ds : Bytes} {a : A} {b : B}
      → Reads m bs a
      → Reads (f a) ds b
      → Reads (m >>= f) (bs ++ ds) b
  unfolding ◌>>=◌
  Reads-bind {m} f {bs} {ds} {a} {b} hm hf = record {
    run = λ e rest r.
        let h = hm.run e (ds ++ rest) (rw (← append_assoc bs ds rest) r) in
        subst (λ x. ((f x (m e).1).0 ≡ b) × Ready src.Holds o cs rest (f x (m e).1).1) (sym h.0)
          (hf.run (m e).1 rest h.1);
  }

  read_ready :
      (e : Encoder S) (p bs : Bytes) (t : S)
      → e.err ≡ none
      → e.limit ≡ none
      → read_full e.rw p ≡ record { state = t; bytes = bs; count = length bs; err = none }
      → read p e ≡ (bs, record e { rw = t; err = none })
  unfolding read unless_failed
  read_ready e p bs t no_error unlimited full = ground (arith, full)

  pub Reads-read : (bs p : Bytes) → length bs ≡ length p → Reads (read p) bs bs
  Reads-read bs p h = record {
    run = λ e rest r.
        let (t, full, holds) = src.read_full_lem e.rw bs rest p h r.holds in
        rw (read_ready e p bs t r.no_error r.unlimited full) (
          refl,
          record {
            holds = holds;
            no_error = refl;
            unlimited = r.unlimited;
            order = r.order;
            same_charset = r.same_charset;
            scratch = r.scratch;
          },
        );
  }

  -- The scratch buffer has room for k bytes.
  Reads-fill_scratch : (k : ℕ) (bs : Bytes) → k ≤ 8 → length bs ≡ k → Reads (fill_scratch k) bs bs
  unfolding fill_scratch
  Reads-fill_scratch k bs room h = record {
    run = λ e rest r.
        let fits : length bs ≡ length (take k e.sbuf) =
          omega (arith, length-take k e.sbuf, r.scratch) in
        let (same, after) = (Reads-read bs (take k e.sbuf) fits).run e rest r in
        (
          same,
          record {
            holds = after.holds;
            no_error = after.no_error;
            unlimited = after.unlimited;
            order = after.order;
            same_charset = after.same_charset;
            scratch =
                rw same (
                  omega (arith, length-append bs (drop k e.sbuf), length-drop k e.sbuf, r.scratch));
          },
        );
  }

  -- A method that first looks for a pending error finds none.
  pub Reads-unless_failed :
      {A : Type 0} {m : M S A} {bs : Bytes} {a : A} (z : A)
      → Reads m bs a
      → Reads (unless_failed z m) bs a
  Reads-unless_failed {m} {bs} {a} z h = record {
    run = λ e rest r. rw (unless_failed_ready z m e r.no_error) (h.run e rest r);
  }

  pub Reads-map :
      {A B : Type 0} {m : M S A} (f : A → B) {bs : Bytes} {a : A} {b : B}
      → Reads m bs a
      → f a ≡ b
      → Reads (λ e. let r = m e in (f r.0, r.1)) bs b
  Reads-map f h e = record { run = λ x rest r. let k = h.run x rest r in (ap f k.0 ∙ e, k.1) }

  pub Reads-uint8 : (n : ℕ) → Reads uint8 (n ∷ []) n
  unfolding uint8
  Reads-uint8 n =
      Reads-unless_failed 0
        (Reads-bind _ (Reads-fill_scratch 1 (n ∷ []) (omega arith) refl) (Reads-pure n))

  pub Reads-read_byte : (n : ℕ) → Reads read_byte (n ∷ []) n
  unfolding read_byte
  Reads-read_byte n =
      Reads-unless_failed 0
        (Reads-bind _ (Reads-fill_scratch 1 (n ∷ []) (omega arith) refl) (Reads-pure n))

  Reads-read_order : (k n : ℕ) → k ≤ 8 → n < (2 ^ 8) ^ k → Reads (read_order k) (put o k n) n
  unfolding read_order
  Reads-read_order k n room small = Reads-unless_failed 0 (record {
    run = λ e rest r.
        let (same, after) =
          (Reads-fill_scratch k (put o k n) room (length-put o k n)).run e rest r in
        (rw (same, r.order) (get-put o k n small), after);
  })

  pub Reads-uint16 : (n : ℕ) → n < 2 ^ 16 → Reads uint16 (put o 2 n) n
  unfolding uint16
  Reads-uint16 n h = Reads-read_order 2 n (omega arith) h

  pub Reads-uint32 : (n : ℕ) → n < 2 ^ 32 → Reads uint32 (put o 4 n) n
  unfolding uint32
  Reads-uint32 n h = Reads-read_order 4 n (omega arith) h

  pub Reads-uint64 : (n : ℕ) → n < 2 ^ 64 → Reads uint64 (put o 8 n) n
  unfolding uint64
  Reads-uint64 n h = Reads-read_order 8 n (omega arith) h

  pub Reads-int8 : (z : ℤ) → IsInt8 z → Reads int8 (u8 z ∷ []) z
  unfolding int8
  Reads-int8 z h = Reads-map i8 (Reads-uint8 (u8 z)) (i8-u8 z h)

  pub Reads-int16 : (z : ℤ) → IsInt16 z → Reads int16 (put o 2 (u16 z)) z
  unfolding int16
  Reads-int16 z h = Reads-map i16 (Reads-uint16 (u16 z) (u16-lt z)) (i16-u16 z h)

  pub Reads-int32 : (z : ℤ) → IsInt32 z → Reads int32 (put o 4 (u32 z)) z
  unfolding int32
  Reads-int32 z h = Reads-map i32 (Reads-uint32 (u32 z) (u32-lt z)) (i32-u32 z h)

  pub Reads-int64 : (z : ℤ) → IsInt64 z → Reads int64 (put o 8 (u64 z)) z
  unfolding int64
  Reads-int64 z h = Reads-map i64 (Reads-uint64 (u64 z) (u64-lt z)) (i64-u64 z h)
