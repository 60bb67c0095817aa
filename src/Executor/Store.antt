-- ===== src/Executor/Store.antt =====
-- The in-memory checkpoint store: internal/executor/checkpoint.go.
pub mod Laws
use mysql_pitr.Base.{Option, none, some, List, if◌then◌else◌}
use mysql_pitr.Base.Text.{Text, codes, is_empty}
use mysql_pitr.Base.Dict.{lookup, insert, delete}
use mysql_pitr.Executor.Types.{Checkpoint, LoadResult, found, not_found}

abbrev pub Checkpoints : Type 0
Checkpoints = List (Text × Checkpoint)

unfoldable pub load : Text → Checkpoints → LoadResult
load id s = elim (lookup id s) [ none ↦ not_found | some c ↦ found c ]

unfoldable pub save : Checkpoint → Checkpoints → Checkpoints × Option Text
save c s =
    if is_empty c.operation_id
    then (s, some (codes "executor: checkpoint.OperationID required"))
    else (insert c.operation_id c s, none)

unfoldable pub clear : Text → Checkpoints → Checkpoints × Option Text
clear id s = (delete id s, none)
