-- ===== src/Lib.antt =====
-- The driver for the TDS protocol of Sybase ASE, as far as it is modelled: the packets, the messages
-- within them, the encoder below both, and what a session makes of a response.
--
-- How the parts interact. A session (session.go) sends and receives messages (messages.go) through a
-- `buf` (buffer.go), which cuts what it writes into packets and joins the packets that it reads. Messages and
-- packet headers are made of integers and texts by an Encoder (binary/encoder.go) over a reader and writer: a
-- bytes.Buffer for the message that is written, the `buf` itself for the packets, the connection for the headers.
--
-- The files:
-- - Base: numbers, integers of fixed widths, lists. Golang: what the Go library gives: byte orders, io.ReadFull,
--   io.CopyN, io.LimitReader, bytes.Buffer, and the error values of the driver.
-- - Encoder: binary/encoder.go. The Encoder is a record; each method is a function from it to a result and the
--   Encoder that it leaves, with the first error kept in it. Encoder/Reads and Encoder/Writes say what a method
--   reads from or writes to a stream of bytes, over the interfaces Source and Sink of Encoder/Ready.
-- - Messages: messages.go. Tokens has the table of attributes, and one file per message has its record, its
--   Write and its Read; Login has no Read. Options is the table of the options that OptionCmd sets.
-- - Packet: buffer.go, with packet_type.go. `buf` is the record Buf; its Read and Write, readPkt, sendPkt, initPkt
--   and processCancel are functions on it. Packet/Receive and its children read through the packets,
--   Packet/Send and its children are about writing: the cancellation, and a stream that is cut into full packets.
--   Packet/Messages has writeMsg, readMsg, skipMsg, skip, send and receive; its children are about skipping and
--   sending.
-- - Session: the session's state and its handlers, checkErr and the choice of an isolation level, of session.go,
--   and the Result of result.go. Session/Results is about whole responses.
-- - Types: types.go. DataTypes and Table have the data types and their attributes, Julian, Calendar and Dates the
--   dates, Encoders and Decoders the other values; Types itself has the converter of integers.
-- - Columns: tabular_messages.go. Columns has the type of a column and the look-up of its properties, Formats and
--   Rows the messages with formats and rows, Data the values in them.
--   Columns/Browse reads the names of tables and colInfo.
-- - Decimals: num.go, with the money of types.go. Num and Table have the type, its text and the table of sizes, Convert
--   the converter and Scan, Wire the encoders and decoders, which fill the interface that Columns/Data has for them.
--   Golang/Radix and Golang/Big have what it uses of math/big.
-- - Rows: rows.go. A response is the list of its messages as they are read, and `Session.Results.step` is what the
--   session does with the common ones. Fetching says what a response means to a client, Access answers what a client may
--   ask about columns, Computed has the messages of computed columns of tabular_messages.go.
-- - Statements: stmt.go.
-- - Tests: concrete runs.
--
-- Numbers are natural numbers, with the wrap-around of the fixed widths written out; signed integers are a data
-- type over them. A run-time panic, a receive on an empty channel and a loop that does not end are error values.
-- Loops of a reader run on fuel: the bytes asked for, and a bound on the calls in a row that give neither a byte
-- nor an error. For the packets that bound is the length of the input, since an empty packet takes eight bytes of it;
-- the theorems on reading show that it is enough. The connection is the bytes that will arrive, the error behind
-- them, and the slices that were written. How it cuts the bytes does not show behind io.ReadFull and io.CopyN.
--
-- Parameters: a charset is any pair of functions (golang.org/x/text/encoding), and so are the lookup of
-- charsets and strconv.Atoi for the environment changes. Package time, the IEEE 754 bits of a float, UTF-16
-- and the parsing of a number in base 16, the text of a number and of the process's number are records of
-- functions, and so are the forms of a big.Rat that are not decimal and the text of a float. The formats and
-- rows of a result are modelled over any coders of decimals; those of num.go are one instance. A big.Rat is a
-- fraction that is not reduced. The loop of Close runs on fuel of four rounds for each message and four more,
-- since a round takes a message or clears one of two flags.
--
-- Not modelled: goroutines, contexts and timeouts (watchCancel and cancel of buffer.go), the dialogue of the
-- login with its encryption, login.Read (messages.go), cmpName (tabular_messages.go), the pools of rows and
-- numbers, the text that prepares a statement (stmt.go), the converters of booleans, dates and floats
-- (types.go), the charset names (charsets.go), the connection string (driver.go), the generated names
-- (*_string.go) and the command line client (gsql).
pub mod Base
pub mod Golang
pub mod Encoder
pub mod Messages
pub mod Packet
pub mod Session
pub mod Types
pub mod Decimals
pub mod Columns
pub mod Rows
pub mod Statements
pub mod Tests
