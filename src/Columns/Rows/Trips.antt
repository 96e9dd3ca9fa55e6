-- ===== src/Columns/Rows/Trips.antt =====
-- A row that is written and read back.
use tds.Base.{suc, ◌≡◌, refl, ap, Option, none, some, List, [], ◌∷◌, ◌++◌, length, Bytes, ==_iff}
use tds.Golang.Order.{ByteOrder}
use tds.Golang.Io.{ReadWriter}
use tds.Golang.Buffer.{Buffer, buffer}
use tds.Encoder.Ops.{Charset, Encoder}
use tds.Encoder.Ready.{Source, Sink, Ready}
use tds.Encoder.Reads.{Reads, Reads-bind, Reads-pure}
use tds.Encoder.Writes.{Writes, Writes-bind, Writes-pure}
use tds.Messages.Codec.{
  Carries, buffer_source, buffer_sink, Reads-take_err, Reads-last, Writes-take_err, Recovers,
  recovers,
}
use tds.Types.Host.{Host, Value}
use tds.Columns.Formats.{ColFmt}
use tds.Columns.Data.{Decimals}
use tds.Columns.Data.Held.{Held}
use tds.Columns.Data.Writing.{Writes-Held}
use tds.Columns.Data.Reading.{Reads-Held}
use tds.Columns.Rows.{write_cells, write_row, read_cells, read_row}

-- The bytes of the values of a row, one column after the other; the columns are those of the writer and those
-- of the reader.
pub data HeldRow (h : Host) (o : ByteOrder) (cs : Option Charset)
    : List ColFmt → List ColFmt → List (Value h) → Bytes → Type 0 where
  no_cells : HeldRow h o cs [] [] [] []
  cell :
      {f g : ColFmt} {fs gs : List ColFmt} {v : Value h} {vs : List (Value h)} {bs ds : Bytes}
      → Held h o cs f.col_type g.col_type v bs
      → HeldRow h o cs fs gs vs ds
      → HeldRow h o cs (f ∷ fs) (g ∷ gs) (v ∷ vs) (bs ++ ds)

-- Such a row has as many values as the writer has columns.
pub length-HeldRow :
    {h : Host} (o : ByteOrder) (cs : Option Charset) (fs gs : List ColFmt) (vs : List (Value h))
    (bs : Bytes)
    → HeldRow h o cs fs gs vs bs
    → length vs ≡ length fs
length-HeldRow o cs _ _ _ _ no_cells = refl
length-HeldRow o cs _ _ _ _ (cell {f} {g} {fs} {gs} {v} {vs} {bs} {ds} c r) =
    ap suc (length-HeldRow o cs fs gs vs ds r)

module _ {h : Host} {S : Type 0} ⦃w : ReadWriter S⦄ (num : Decimals h S) (o : ByteOrder)
    (cs : Option Charset) where
  Writes-cells :
      (snk : Sink S) (fs gs : List ColFmt) (vs : List (Value h)) (bs : Bytes)
      → HeldRow h o cs fs gs vs bs
      → Writes snk o cs (write_cells num fs vs none) bs none
  unfolding write_cells
  Writes-cells snk _ _ _ _ no_cells =
      Writes-bind snk o cs _ (Writes-take_err snk o cs) (Writes-pure snk o cs none)
  Writes-cells snk _ _ _ _ (cell {f} {g} {fs} {gs} {v} {vs} {bs} {ds} c r) =
      Writes-bind snk o cs _ (Writes-Held num o cs snk f.col_type g.col_type v bs c)
        (Writes-cells snk fs gs vs ds r)

  Reads-cells :
      (src : Source S) (fs gs : List ColFmt) (vs : List (Value h)) (bs : Bytes)
      → HeldRow h o cs fs gs vs bs
      → Reads src o cs (read_cells num gs none) bs (vs, none)
  unfolding read_cells
  Reads-cells src _ _ _ _ no_cells =
      Reads-bind src o cs _ (Reads-take_err src o cs) (Reads-pure src o cs ([], none))
  Reads-cells src _ _ _ _ (cell {f} {g} {fs} {gs} {v} {vs} {bs} {ds} c r) =
      Reads-bind src o cs _ (Reads-Held num o cs src f.col_type g.col_type v bs c)
        (Reads-last src o cs _ (Reads-cells src fs gs vs ds r) (Reads-pure src o cs (v ∷ vs, none)))

  pub Writes-row :
      (snk : Sink S) (fs gs : List ColFmt) (vs : List (Value h)) (bs : Bytes)
      → HeldRow h o cs fs gs vs bs
      → Writes snk o cs (write_row num fs vs) bs none
  unfolding write_row
  Writes-row snk fs gs vs bs r =
      rw ((==_iff (length vs) (length fs)).1 (length-HeldRow o cs fs gs vs bs r))
        (Writes-cells snk fs gs vs bs r)

-- A row written to a buffer is read back from it unchanged, value by value and null values included, with no error and
-- nothing left over, if the row has a column and each value is one that the writer's column and the reader's hold.
pub read-write_row :
    {h : Host} (num : Decimals h Buffer) (o : ByteOrder) (cs : Option Charset) (e : Encoder Buffer)
    (g : ColFmt) (fs gs : List ColFmt) (vs old : List (Value h)) (bs : Bytes)
    → Ready Carries o cs [] e
    → HeldRow h o cs fs (g ∷ gs) vs bs
    → Recovers o cs (write_row num fs vs) (read_row num (some (g ∷ gs)) old) vs e
unfolding read_row
read-write_row num o cs e g fs gs vs old bs r k =
    recovers (Writes-row num o cs buffer_sink fs (g ∷ gs) vs bs k)
      (Reads-cells num o cs buffer_source fs (g ∷ gs) vs bs k) r
