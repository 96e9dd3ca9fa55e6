-- ===== src/Golang/Io.antt =====
-- io.ReadWriter as an interface, io.ReadFull, io.CopyN and io.LimitReader.
use tds.Base.{
  ℕ, zero, suc, ◌+◌, ◌-◌, Option, none, some, [], ◌∷◌, ◌++◌, length, take, drop, Bytes, leb,
  if◌then◌else◌, min, ◌≡◌, refl, ap, arith, ◌≤◌, take_all, drop_all, append-nil,
}
use native.Mathlib.Nat.{add-zero}
use tds.Golang.Errors.{Error, eof, unexpected_eof, diverges}

-- What a call of Read(p) leaves: the reader, the bytes stored at the start of p, and the call's
-- two results.
pub record Reading (S : Type 0) : Type 0 where
  pub state : S
  pub bytes : Bytes
  pub count : ℕ
  pub err : Option Error

-- What a call of Write(p) leaves.
pub record Writing (S : Type 0) : Type 0 where
  pub state : S
  pub count : ℕ
  pub err : Option Error

-- `read s k` is Read(p) on a slice of k bytes. `rounds` bounds how many calls in a row may give
-- neither a byte nor an error.
pub record ReadWriter (S : Type 0) : Type 0 where
  pub read : S → ℕ → Reading S
  pub write : S → Bytes → Writing S
  pub rounds : S → ℕ

-- `p` with `bs` stored at its start.
abbrev pub overlay : Bytes → Bytes → Bytes
overlay [] p = p
overlay (b ∷ bs) [] = []
overlay (b ∷ bs) (x ∷ p) = b ∷ overlay bs p

-- EOF after some bytes is io.ErrUnexpectedEOF.
unfoldable pub full_error : ℕ → Option Error → Option Error
full_error (suc n) (some eof) = some unexpected_eof
full_error n e = e

module _ {S : Type 0} where
  -- The result of a loop on `p` whose first call read `r` and whose later calls read `rest`.
  unfoldable pub then_read : Bytes → Reading S → Reading S → Reading S
  then_read p r rest = elim r.err [
    | none ↦ record {
      state = rest.state;
      bytes = take r.count (overlay r.bytes p) ++ rest.bytes;
      count = r.count + rest.count;
      err = rest.err;
    }
    | some e ↦ record {
      state = r.state;
      bytes = overlay r.bytes p;
      count = r.count;
      err = if leb (length p) r.count then none else some e;
    }
  ]

  -- The result of a copy of n bytes whose first call read `r` and whose later calls read `rest`.
  unfoldable pub then_copied : ℕ → Reading S → Reading S → Reading S
  then_copied n r rest = elim r.err [
    | none ↦ record {
      state = rest.state;
      bytes = take r.count r.bytes ++ rest.bytes;
      count = r.count + rest.count;
      err = rest.err;
    }
    | some e ↦ record {
      state = r.state;
      bytes = take r.count r.bytes;
      count = r.count;
      err = if leb n r.count then none else some e;
    }
  ]

module _ {S : Type 0} ⦃w : ReadWriter S⦄ where
  -- The loop of io.ReadAtLeast over the part of the slice that is still to be filled.
  unfoldable pub read_loop : ℕ → S → Bytes → Reading S
  unfolding then_read
  read_loop fuel s [] = record { state = s; bytes = []; count = 0; err = none }
  read_loop zero s (x ∷ p) = record { state = s; bytes = x ∷ p; count = 0; err = some diverges }
  read_loop (suc fuel) s (x ∷ p) =
      let r = w.read s (length (x ∷ p)) in
      let rest = read_loop fuel r.state (drop r.count (overlay r.bytes (x ∷ p))) in
      then_read (x ∷ p) r rest

  -- io.ReadFull(s, p); `bytes` is the whole slice.
  unfoldable pub read_full : S → Bytes → Reading S
  unfolding read_loop full_error
  read_full s p =
      let r = read_loop (suc (w.rounds s + length p)) s p in
      record { state = r.state; bytes = r.bytes; count = r.count; err = full_error r.count r.err }

  -- io.CopyN(dst, s, n), in slices of at most `chunk` bytes; `bytes` is what `dst` is given.
  unfoldable pub copy_loop : ℕ → ℕ → S → ℕ → Reading S
  unfolding then_copied
  copy_loop fuel chunk s zero = record { state = s; bytes = []; count = 0; err = none }
  copy_loop zero chunk s (suc n) = record { state = s; bytes = []; count = 0; err = some diverges }
  copy_loop (suc fuel) chunk s (suc n) =
      let r = w.read s (min chunk (suc n)) in
      let rest = copy_loop fuel chunk r.state (suc n - r.count) in then_copied (suc n) r rest

  unfoldable pub copy_n : ℕ → S → ℕ → Reading S
  unfolding copy_loop
  copy_n chunk s n = copy_loop (suc (w.rounds s + n)) chunk s n

pub overlay_whole : (bs p : Bytes) → length bs ≡ length p → overlay bs p ≡ bs
overlay_whole [] [] h = refl
overlay_whole [] (x ∷ p) h = absurd (omega arith)
overlay_whole (b ∷ bs) [] h = absurd (omega arith)
overlay_whole (b ∷ bs) (x ∷ p) h = ap (λ q. b ∷ q) (overlay_whole bs p (omega arith))

pub overlay_partly : (bs p : Bytes) → length bs ≤ length p → overlay bs p ≡ bs ++ drop (length bs) p
overlay_partly [] p h = refl
overlay_partly (b ∷ bs) [] h = absurd (omega arith)
overlay_partly (b ∷ bs) (x ∷ p) h = ap (λ q. b ∷ q) (overlay_partly bs p (omega arith))

pub full_error-none : (n : ℕ) → full_error n none ≡ none
unfolding full_error
full_error-none zero = refl
full_error-none (suc n) = refl

module _ {S : Type 0} ⦃w : ReadWriter S⦄ where
  pub read_loop-suc :
      (fuel : ℕ) (s : S) (x : ℕ) (p : Bytes)
      → (r : Reading S) → w.read s (length (x ∷ p)) ≡ r
      → read_loop (suc fuel) s (x ∷ p)
        ≡ then_read (x ∷ p) r (read_loop fuel r.state (drop r.count (overlay r.bytes (x ∷ p))))
  read_loop-suc fuel s x p r e = rw (← e) (unfold read_loop in refl)

  pub copy_loop-suc :
      (fuel chunk : ℕ) (s : S) (n : ℕ) (r : Reading S)
      → w.read s (min chunk (suc n)) ≡ r
      → copy_loop (suc fuel) chunk s (suc n)
        ≡ then_copied (suc n) r (copy_loop fuel chunk r.state (suc n - r.count))
  copy_loop-suc fuel chunk s n r e = rw (← e) (unfold copy_loop in refl)

  -- A call of Read that fills the slice ends the loop.
  pub read_loop_once :
      (fuel : ℕ) (s t : S) (x : ℕ) (bs p : Bytes)
      → length bs ≡ length (x ∷ p)
      → w.read s (length (x ∷ p)) ≡ record { state = t; bytes = bs; count = length bs; err = none }
      → read_loop (suc fuel) s (x ∷ p)
        ≡ record { state = t; bytes = bs; count = length bs; err = none }
  unfolding then_read read_loop
  read_loop_once fuel s t x bs p h e = rw (
    read_loop-suc fuel s x p _ e,
    overlay_whole bs (x ∷ p) h,
    drop_all (length bs) bs (omega arith),
    take_all (length bs) bs (omega arith),
    append-nil bs,
    add-zero (length bs),
  )

  pub read_full_once :
      (s t : S) (x : ℕ) (bs p : Bytes)
      → length bs ≡ length (x ∷ p)
      → w.read s (length (x ∷ p)) ≡ record { state = t; bytes = bs; count = length bs; err = none }
      → read_full s (x ∷ p) ≡ record { state = t; bytes = bs; count = length bs; err = none }
  unfolding read_full
  read_full_once s t x bs p h e = rw (read_loop_once _ s t x bs p h e, full_error-none (length bs))

-- io.LimitReader(inner, left).
pub record Limited (S : Type 0) : Type 0 where
  pub inner : S
  pub left : ℕ

-- Its Read: EOF once nothing is left, and never more than is left.
abbrev pub limited_read : {S : Type 0} → ReadWriter S → Limited S → ℕ → Reading (Limited S)
limited_read w s k =
    if leb s.left 0
    then record { state = s; bytes = []; count = 0; err = some eof }
    else (let r = w.read s.inner (min k s.left) in
        record {
          state = record { inner = r.state; left = s.left - r.count };
          bytes = r.bytes;
          count = r.count;
          err = r.err;
        })

instance abbrev pub limited : {S : Type 0} ⦃w : ReadWriter S⦄ → ReadWriter (Limited S)
limited ⦃w⦄ = record {
  read = limited_read w;
  write = λ s p.
      let r = w.write s.inner p in
      record { state = record s { inner = r.state }; count = r.count; err = r.err };
  rounds = λ s. w.rounds s.inner;
}
