-- ===== src/Session/Errors.antt =====
-- The errors that end a session, in checkErr, and those of BeginTx before anything is sent.
use tds.Base.{
  ℕ, zero, suc, ◌<◌, if◌then◌else◌, ◌≡◌, Bool, true, false, ◌&&◌, Option, none, some, Bytes, arith,
  ◌==◌,
}
use tds.Base.Int.{ℤ, pos, negsuc}
use tds.Golang.Errors.{Error, eof, canceled, deadline_exceeded, sybase}
use tds.Session.{Session, check_err, check_kind, begin_level, level_at, set_level, is_default}

-- An error that says nothing of the connection.
abbrev pub is_harmless : Option Error → Bool
is_harmless none = true
is_harmless (some eof) = true
is_harmless (some canceled) = true
is_harmless (some deadline_exceeded) = true
is_harmless (some (sybase m)) = true
is_harmless (some e) = false

check_kind-valid :
    (e : Error) (msg : Bytes) (ignore_eof : Bool) (s : Session)
    → (check_kind msg ignore_eof e s).0.valid ≡ (s.valid && is_harmless (some e))
unfolding check_kind
check_kind-valid e msg ignore_eof s = ground arith

-- A session stays valid exactly if it was valid and the error is none, the end of a response, a context's, or
-- one that the server sent.
pub check_err-valid :
    (err : Option Error) (msg : Bytes) (ignore_eof : Bool) (s : Session)
    → (check_err err msg ignore_eof s).0.valid ≡ (s.valid && is_harmless err)
unfolding check_err
check_err-valid none msg ignore_eof s = ground arith
check_err-valid (some e) msg ignore_eof s = ground (arith, check_kind-valid e msg ignore_eof s)

-- The isolation levels of database/sql that a level of the server stands for.
abbrev pub sql_level : ℕ → ℕ
sql_level n = if n == 0 then 1 else if n == 1 then 2 else if n == 2 then 4 else 6

level_at-set :
    (isolation : ℤ) (n : ℕ)
    → is_default isolation ≡ false
    → level_at isolation ≡ set_level n
    → (n < 4) × (isolation ≡ pos (sql_level n))
unfolding level_at
level_at-set (negsuc k) n d h = ground (arith, d, h)
level_at-set (pos zero) n d h = ground (arith, d, h)
level_at-set (pos (suc zero)) n d h = ground (arith, d, h)
level_at-set (pos (suc (suc zero))) n d h = ground (arith, d, h)
level_at-set (pos (suc (suc (suc zero)))) n d h = ground (arith, d, h)
level_at-set (pos (suc (suc (suc (suc zero))))) n d h = ground (arith, d, h)
level_at-set (pos (suc (suc (suc (suc (suc zero)))))) n d h = ground (arith, d, h)
level_at-set (pos (suc (suc (suc (suc (suc (suc zero))))))) n d h = ground (arith, d, h)
level_at-set (pos (suc (suc (suc (suc (suc (suc (suc zero)))))))) n d h = ground (arith, d, h)
level_at-set (pos (suc (suc (suc (suc (suc (suc (suc (suc k))))))))) n d h = ground (arith, d, h)

-- BeginTx sets an isolation level only on a valid session, for a transaction that may write, and then
-- it is one of the server's four levels, for the level of database/sql with the same name.
pub begin_level-sets :
    (s : Session) (read_only : Bool) (isolation : ℤ) (n : ℕ)
    → begin_level s read_only isolation ≡ set_level n
    → (s.valid ≡ true) × (read_only ≡ false) × (n < 4) × (isolation ≡ pos (sql_level n))
unfolding begin_level
begin_level-sets s read_only isolation n h = ground (arith, h, level_at-set isolation n)
