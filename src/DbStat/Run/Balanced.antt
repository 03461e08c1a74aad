-- ===== src/DbStat/Run/Balanced.antt =====
-- 29_dbstat/main.c: what the program opens it closes.
use otus_c_prog.Common.{ℕ, ◌≡◌, Bool, true, false, Option, none, some, List, [], ◌∷◌, arith}
use otus_c_prog.DbStat.Rows.{Double, Converted}
use otus_c_prog.DbStat.Run.{
  Database, Call, open_connection, send_query, store_result, free_result, close_connection,
  after_report, after_query, after_connect, after_arguments, program, execute_query, db_connect,
  store,
}

-- How far the calls have come.
pub data Phase : Type 0 where
  unopened : Phase
  connected : Phase
  queried : Phase
  holding : Phase
  freed : Phase
  closed : Phase

-- The phase after a call, if it is allowed: a connection is opened, one query sent, its result
-- stored and freed, and the connection closed, with nothing stored and not freed, each once.
unfoldable pub allowed : Phase → Call → Option Phase
allowed unopened open_connection = some connected
allowed connected (send_query q) = some queried
allowed connected close_connection = some closed
allowed queried store_result = some holding
allowed queried close_connection = some closed
allowed holding free_result = some freed
allowed freed close_connection = some closed
allowed p call = none

unfoldable pub replay : Phase → List Call → Option Phase
replay p [] = some p
replay p (c ∷ cs) = elim (allowed p c) [ none ↦ none | some after ↦ replay after cs ]

-- The calls were allowed, and the connection was never opened, or is closed.
unfoldable pub is_over : Option Phase → Bool
is_over none = false
is_over (some unopened) = true
is_over (some closed) = true
is_over (some p) = false

module _ {W : Type 0} (d : Double W) (strtod : List ℕ → Converted W) (db : Database) where
  -- However the program ends, and whatever the library answers, it opens a connection at most once,
  -- sends at most one query over it, stores its result at most once and frees it before it closes
  -- the connection, and at the end nothing that was stored or opened is left.
  pub program-replay :
      (registered : Bool) (options : List (ℕ × List ℕ))
      → is_over (replay unopened (program d strtod db registered options).client.calls) ≡ true
  unfolding program execute_query db_connect store allowed replay is_over after_arguments
      after_connect after_query after_report
  program-replay registered options = ground arith
