-- ===== src/Golang/Buffer.antt =====
-- bytes.Buffer: a queue of bytes, read from its front and written at its end.
use tds.Base.{
  ℕ, zero, suc, ◌+◌, ◌<◌, ◌≡◌, refl, none, some, [], ◌∷◌, ◌++◌, length, take, drop, Bytes, arith,
  take-append, drop-append, take_all, drop_all, length-drop, leb-false, ◌≤◌, leb, if◌then◌else◌,
}
use native.Mathlib.Nat.{add-zero}
use tds.Golang.Errors.{Error, eof, unexpected_eof}
use tds.Golang.Io.{
  Reading, ReadWriter, read_full, read_full_once, read_loop, read_loop-suc, then_read, full_error,
  overlay_partly,
}

pub record Buffer : Type 0 where
  pub unread : Bytes

abbrev pub holding : Bytes → Buffer
holding bs = record { unread = bs }

-- Read: EOF if the buffer is empty and the slice is not.
abbrev pub read_bytes : Bytes → ℕ → Reading Buffer
read_bytes [] k = record {
  state = holding [];
  bytes = [];
  count = 0;
  err = if leb k 0 then none else some eof;
}
read_bytes (x ∷ xs) k = record {
  state = holding (drop k (x ∷ xs));
  bytes = take k (x ∷ xs);
  count = length (take k (x ∷ xs));
  err = none;
}

instance abbrev pub buffer : ReadWriter Buffer
buffer = record {
  read = λ b k. read_bytes b.unread k;
  write = λ b p. record { state = holding (b.unread ++ p); count = length p; err = none };
  rounds = λ b. 1;
}

pub take_whole : (bs rest : Bytes) (k : ℕ) → length bs ≡ k → take k (bs ++ rest) ≡ bs
take_whole bs rest k h = rw (← h) (take-append bs rest)

pub drop_whole : (bs rest : Bytes) (k : ℕ) → length bs ≡ k → drop k (bs ++ rest) ≡ rest
drop_whole bs rest k h = rw (← h) (drop-append bs rest)

-- A slice that the buffer can fill is filled with the front of the buffer.
pub read_full-buffer :
    (bs rest p : Bytes)
    → length bs ≡ length p
    → read_full (holding (bs ++ rest)) p
      ≡ record { state = holding rest; bytes = bs; count = length bs; err = none }
unfolding read_full
read_full-buffer [] rest [] h = refl
read_full-buffer [] rest (x ∷ p) h = absurd (omega arith)
read_full-buffer (b ∷ bs) rest [] h = absurd (omega arith)
read_full-buffer (b ∷ bs) rest (x ∷ p) h =
    read_full_once (holding (b ∷ bs ++ rest)) (holding rest) x (b ∷ bs) p h (
      rw (take_whole bs rest (length p) (omega arith), drop_whole bs rest (length p) (omega arith)))

-- The error of io.ReadFull on a buffer that holds too little.
abbrev pub short_error : Bytes → Error
short_error [] = eof
short_error (b ∷ bs) = unexpected_eof

read-empty :
    (k : ℕ)
    → buffer.read (holding []) (suc k)
      ≡ record { state = holding []; bytes = []; count = 0; err = some eof }
read-empty k = rw (leb-false (suc k) 0 (omega arith))

read_loop-empty :
    (fuel : ℕ) (q : Bytes)
    → 0 < fuel
    → 0 < length q
    → read_loop fuel (holding []) q
      ≡ record { state = holding []; bytes = q; count = 0; err = some eof }
unfolding then_read
read_loop-empty zero q f h = absurd (omega arith)
read_loop-empty (suc fuel) [] f h = absurd (omega arith)
read_loop-empty (suc fuel) (x ∷ q) f h = rw (
  read_loop-suc fuel (holding []) x q _ (read-empty (length q)),
  leb-false (suc (length q)) 0 (omega arith),
)

read_all :
    (b : ℕ) (bs : Bytes) (k : ℕ)
    → length (b ∷ bs) ≤ k
    → buffer.read (holding (b ∷ bs)) k
      ≡ record { state = holding []; bytes = b ∷ bs; count = length (b ∷ bs); err = none }
read_all b bs k h = rw (take_all k (b ∷ bs) h, drop_all k (b ∷ bs) h)

read_loop_short :
    (fuel : ℕ) (bs : Bytes) (x : ℕ) (p : Bytes)
    → 0 < fuel
    → length bs < length (x ∷ p)
    → read_loop (suc fuel) (holding bs) (x ∷ p) ≡ record {
      state = holding [];
      bytes = bs ++ drop (length bs) (x ∷ p);
      count = length bs;
      err = some eof;
    }
unfolding then_read
read_loop_short fuel [] x p f h = read_loop-empty (suc fuel) (x ∷ p) (omega arith) (omega arith)
read_loop_short fuel (b ∷ bs) x p f h =
    let whole = b ∷ bs in
    let rest = drop (length bs) p in
    rw (
      read_loop-suc fuel (holding whole) x p _ (read_all b bs (length (x ∷ p)) (omega arith)),
      overlay_partly bs p (omega arith),
      drop-append bs rest,
      take-append bs rest,
      read_loop-empty fuel rest f (omega (arith, length-drop (length bs) p)),
      add-zero (length whole),
    )

short_error_lem : (bs : Bytes) → full_error (length bs) (some eof) ≡ some (short_error bs)
unfolding full_error
short_error_lem [] = refl
short_error_lem (b ∷ bs) = refl

-- A slice that the buffer cannot fill is given all that is there, and an error.
pub read_full_short :
    (bs : Bytes) (x : ℕ) (p : Bytes)
    → length bs < length (x ∷ p)
    → read_full (holding bs) (x ∷ p) ≡ record {
      state = holding [];
      bytes = bs ++ drop (length bs) (x ∷ p);
      count = length bs;
      err = some (short_error bs);
    }
unfolding read_full
read_full_short bs x p h =
    rw (read_loop_short (1 + length (x ∷ p)) bs x p (omega arith) h, short_error_lem bs)
