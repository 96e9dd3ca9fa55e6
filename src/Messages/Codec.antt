-- ===== src/Messages/Codec.antt =====
-- What the messages' modules share: the steps that end a Read or a Write, and a message written to
-- a bytes.Buffer and read back from it.
use tds.Base.{◌≡◌, refl, Option, none, [], ◌++◌, Bytes, append-nil, subst}
use tds.Golang.Errors.{Error}
use tds.Golang.Order.{ByteOrder}
use tds.Golang.Io.{ReadWriter}
use tds.Golang.Buffer.{Buffer, buffer, holding, read_full-buffer}
use tds.Encoder.Ops.{Charset, Encoder, M, ◌>>=◌, pure, take_err}
use tds.Encoder.Ready.{Source, Sink, Ready}
use tds.Encoder.Reads.{Reads, Reads-bind, Reads-pure}
use tds.Encoder.Writes.{Writes, Writes-bind}

-- A bytes.Buffer gives its bytes in order, and takes all that is written.
abbrev pub Carries : Buffer → Bytes → Type 0
Carries b bs = b ≡ holding bs

abbrev pub buffer_source : Source Buffer
buffer_source = record {
  Holds = Carries;
  read_full_lem =
      λ s bs rest p fits holds. (holding rest, rw holds (read_full-buffer bs rest p fits), refl);
}

abbrev pub buffer_sink : Sink Buffer
buffer_sink = record {
  Holds = Carries;
  write_lem = λ s bs p holds. (holding (bs ++ p), rw holds refl, refl);
}

-- `err := e.Err(); return err` at the end of a Read that made `a`.
abbrev pub returning : {S A : Type 0} → A → M S (A × Option Error)
returning a = take_err >>= λ err. pure (a, err)

module _ {S : Type 0} ⦃w : ReadWriter S⦄ (src : Source S) (o : ByteOrder)
    (cs : Option Charset) where
  pub Reads-take_err : Reads src o cs take_err [] none
  unfolding take_err
  Reads-take_err = record {
    run = λ e rest r. (
      r.no_error,
      record {
        holds = r.holds;
        no_error = refl;
        unlimited = r.unlimited;
        order = r.order;
        same_charset = r.same_charset;
        scratch = r.scratch;
      },
    );
  }

  pub Reads-returning : {A : Type 0} (a : A) → Reads src o cs (returning a) [] (a, none)
  Reads-returning a = Reads-bind src o cs _ Reads-take_err (Reads-pure src o cs (a, none))

  -- The last bytes of a message.
  pub Reads-last :
      {A B : Type 0} {m : M S A} (f : A → M S B) {bs : Bytes} {a : A} {b : B}
      → Reads src o cs m bs a
      → Reads src o cs (f a) [] b
      → Reads src o cs (m >>= f) bs b
  Reads-last {m} f {bs} {a} {b} h k =
      subst (λ ds. Reads src o cs (m >>= f) ds b) (append-nil bs) (Reads-bind src o cs f h k)

module _ {S : Type 0} ⦃w : ReadWriter S⦄ (snk : Sink S) (o : ByteOrder) (cs : Option Charset) where
  pub Writes-take_err : Writes snk o cs take_err [] none
  unfolding take_err
  Writes-take_err = record {
    run = λ e before r. (
      r.no_error,
      record {
        holds = rw (append-nil before) r.holds;
        no_error = refl;
        unlimited = r.unlimited;
        order = r.order;
        same_charset = r.same_charset;
        scratch = r.scratch;
      },
    );
  }

  -- The last bytes of a message.
  pub Writes-last :
      {A B : Type 0} {m : M S A} (f : A → M S B) {bs : Bytes} {a : A} {b : B}
      → Writes snk o cs m bs a
      → Writes snk o cs (f a) [] b
      → Writes snk o cs (m >>= f) bs b
  Writes-last {m} f {bs} {a} {b} h k =
      subst (λ ds. Writes snk o cs (m >>= f) ds b) (append-nil bs) (Writes-bind snk o cs f h k)

-- Writing with `write` reports no error, reading back with `read` gives `a` and no error, and all
-- that was written has been read.
abbrev pub Recovers :
    {A : Type 0}
    → ByteOrder
    → Option Charset
    → M Buffer (Option Error)
    → M Buffer (A × Option Error)
    → A
    → Encoder Buffer
    → Type 0
Recovers o cs write read a e =
    ((write e).0 ≡ none)
    × ((read (write e).1).0 ≡ (a, none))
    × Ready Carries o cs [] (read (write e).1).1

pub recovers :
    {A : Type 0} {o : ByteOrder} {cs : Option Charset} {write : M Buffer (Option Error)}
    {read : M Buffer (A × Option Error)} {bs : Bytes} {a : A} {e : Encoder Buffer}
    → Writes buffer_sink o cs write bs none
    → Reads buffer_source o cs read bs (a, none)
    → Ready Carries o cs [] e
    → Recovers o cs write read a e
recovers {o} {cs} {write} {bs} {e} writes reads ready =
    let (wrote, after) = writes.run e [] ready in
    let (same, done) = reads.run (write e).1 [] (rw (append-nil bs) after) in (wrote, same, done)
