-- ===== src/DbStat/Run.antt =====
-- 29_dbstat/main.c: main, with its calls of the database library, and what runs at exit. What the
-- library answers is a parameter.
pub mod Balanced
pub mod Reported
use otus_c_prog.Common.{
  ℕ, Bool, true, false, not, Option, none, some, List, [], ◌∷◌, ◌++◌, length, ◌==◌, leb,
  if◌then◌else◌,
}
use otus_c_prog.DbStat.{Arguments, parse_arguments, validate_identifiers, query_size, query_text}
use otus_c_prog.DbStat.Rows.{Double, Converted, Report, report_rows}

-- A stored result: the number of its fields, and the first field of each row, or NULL.
pub record Table : Type 0 where
  pub fields : ℕ
  pub rows : List (Option (List ℕ))

-- Whether mysql_init, mysql_real_connect and mysql_query succeed, and what mysql_store_result
-- gives after a query.
pub record Database : Type 0 where
  pub init : Bool
  pub connects : Arguments → Bool
  pub runs : List ℕ → Bool
  pub stores : List ℕ → Option Table

-- The calls that open and free what the library holds, and the query.
pub data Call : Type 0 where
  open_connection : Call
  send_query : List ℕ → Call
  store_result : Call
  free_result : Call
  close_connection : Call

-- Whether `conn` and `result` are set, and the calls so far.
pub record Client : Type 0 where
  pub conn : Bool
  pub result : Bool
  pub calls : List Call

-- A function that returns, or calls exit through finish_with_error.
pub data Did (A : Type 0) : Type 0 where
  exits : Client → Did A
  returns : Client → A → Did A

unfoldable pub with_call : Client → Call → Client
with_call c call = record c { calls = c.calls ++ (call ∷ []) }

unfoldable pub close : Client → Client
unfolding with_call
close c = record (with_call c close_connection) { conn = false }

unfoldable pub free : Client → Client
unfolding with_call
free c = record (with_call c free_result) { result = false }

unfoldable pub cleanup : Client → Client
unfolding close free
cleanup c = let freed = if c.result then free c else c in if freed.conn then close freed else freed

unfoldable pub db_connect : Database → Arguments → Client → Did Bool
unfolding with_call
db_connect db args c =
    if not db.init
    then returns c false
    else let opened = record (with_call c open_connection) { conn = true } in
      if db.connects args then returns opened true else exits opened

-- What follows a query that has run; no table is the result -1.
unfoldable pub store : Client → Option Table → Did (Option Table)
unfolding with_call
store c none = exits c
store c (some t) =
    let stored = record (with_call c store_result) { result = true } in
    if t.fields == 1 then returns stored (some t) else returns stored none

unfoldable pub execute_query : Database → Arguments → Client → Did (Option Table)
unfolding with_call store
execute_query db args c =
    let query = query_text args in
    let sent = with_call c (send_query query) in
    if leb query_size (length query)
    then returns c none
    else if not (db.runs query)
    then exits sent
    else store sent (db.stores query)

-- How the program ends: whether with EXIT_SUCCESS, and what it has printed.
pub record Ending (W : Type 0) : Type 0 where
  pub client : Client
  pub status : Bool
  pub printed : Option (Report W)

unfoldable pub fail : {W : Type 0} → Client → Ending W
fail c = record { client = c; status = false; printed = none }

module _ {W : Type 0} (d : Double W) (strtod : List ℕ → Converted W) (db : Database) where
  unfoldable pub after_report : Client → Option (Report W) → Ending W
  unfolding fail close free
  after_report c none = fail c
  after_report c (some r) = record { client = close (free c); status = true; printed = some r }

  unfoldable pub after_query : Did (Option Table) → Ending W
  unfolding fail after_report
  after_query (exits c) = fail c
  after_query (returns c none) = fail c
  after_query (returns c (some t)) = after_report c (report_rows d strtod t.rows)

  unfoldable pub after_connect : Arguments → Did Bool → Ending W
  unfolding fail after_query execute_query
  after_connect args (exits c) = fail c
  after_connect args (returns c false) = fail c
  after_connect args (returns c true) = after_query (execute_query db args c)

  abbrev pub at_start : Client
  at_start = record { conn = false; result = false; calls = [] }

  unfoldable pub after_arguments : Option Arguments → Ending W
  unfolding fail after_connect db_connect
  after_arguments none = fail at_start
  after_arguments (some args) =
      if not (validate_identifiers args)
      then fail at_start
      else after_connect args (db_connect db args at_start)

  -- main on what getopt returns, and the handler that atexit has registered, if it has.
  unfoldable pub program : Bool → List (ℕ × List ℕ) → Ending W
  unfolding fail after_arguments cleanup
  program registered options =
      if not registered
      then fail at_start
      else let e = after_arguments (parse_arguments options) in
        record e { client = cleanup e.client }
