-- ===== src/Connection/Call.antt =====
-- What a remote call, or a batch, asks the handler.
use py_sqlbridge.Prelude.{
  ◌+◌, ◌==◌, ◌&&◌, Bool, true, Option, none, some, List, [], ◌∷◌, ◌++◌, length, leb, if◌then◌else◌,
}
use py_sqlbridge.Py.Utf16.{Str}
use py_sqlbridge.Py.Text.{text}
use py_sqlbridge.Rpc.{ProcId, execute_sql, Value, characters, Parameter, RpcRequest}
use py_sqlbridge.Connection.State.{Query, Dict, dict_set, same_text}

-- `RpcRequest.sql`: the statement that a call of sp_executesql carries.
abbrev text_value : Value → Option Str
text_value (characters s) = some s
text_value _ = none

abbrev first_text : List Parameter → Option Str
first_text [] = none
first_text (p ∷ ps) = text_value p.value

abbrev lower : Str → Str
lower [] = []
lower (c ∷ s) = (if leb 65 c && leb c 90 then c + 32 else c) ∷ lower s

-- No character outside ASCII has a lower case among the letters of this name.
abbrev is_execute_sql : Option ProcId → Str → Bool
is_execute_sql (some execute_sql) procedure = true
is_execute_sql _ procedure = same_text (lower procedure) (text "sp_executesql")

sql_of : RpcRequest → Option Str
sql_of call =
    if is_execute_sql call.proc_id call.procedure then first_text call.parameters else none

-- The parameters that have a name, and the values of those that have none.
named_values : List Parameter → Dict Value → Dict Value
named_values [] d = d
named_values (p ∷ ps) d =
    named_values ps (if length p.name == 0 then d else dict_set p.name p.value d)

unnamed_values : List Parameter → List Value
unnamed_values [] = []
unnamed_values (p ∷ ps) =
    let rest = unnamed_values ps in if length p.name == 0 then p.value ∷ rest else rest

-- What a call asks the handler.
pub query_of_call : RpcRequest → Query
unfolding sql_of named_values unnamed_values
query_of_call call = elim (sql_of call) [
  | none ↦ record {
    sql = text "EXEC " ++ call.procedure;
    parameters = named_values call.parameters [];
    procedure = some call.procedure;
    arguments = unnamed_values call.parameters;
  }
  | some sql ↦ record {
    sql = sql;
    parameters = named_values call.parameters [];
    procedure = none;
    arguments = [];
  }
]

abbrev pub query_of_batch : Str → Query
query_of_batch sql = record { sql = sql; parameters = []; procedure = none; arguments = [] }
