-- ===== src/Connector/Tests.antt =====
-- topoSort of internal/connector/fk.go on concrete tables.
use mysql_pitr.Base.{◌≡◌, refl, true, List, [], ◌∷◌, some}
use mysql_pitr.Base.Text.{Text, codes, contains}
use mysql_pitr.Base.Dict.{lookup, insert}
use mysql_pitr.Connector.{FkConstraint, release, kahn, kahn_fuel, topo_sort}
use mysql_pitr.Connector.Distinct.{is_distinct}
use mysql_pitr.Connector.Order.{topo_sort_complete}

abbrev references : Text → Text → FkConstraint
references child parent = record { table_name = child; ref_table_name = parent }

abbrev tables : List Text
tables = codes "lines" ∷ codes "orders" ∷ codes "users" ∷ []

abbrev constraints : List FkConstraint
constraints =
    references (codes "lines") (codes "orders") ∷ references (codes "orders") (codes "users") ∷ []

in_order : topo_sort tables constraints ≡ some (codes "users" ∷ codes "orders" ∷ codes "lines" ∷ [])
unfolding topo_sort kahn kahn_fuel release lookup insert
in_order = refl

-- A table that references itself is not taken before its children.
self_reference :
    topo_sort
      (codes "items" ∷ codes "tree" ∷ [])
      (references (codes "tree") (codes "tree") ∷ references (codes "items") (codes "tree") ∷ [])
    ≡ some (codes "items" ∷ codes "tree" ∷ [])
unfolding topo_sort kahn kahn_fuel release lookup insert
self_reference = refl

topo_sort_complete_example :
    (out : List Text) × (topo_sort tables constraints ≡ some out)
    × (is_distinct out ≡ true)
    × ((t : Text) → contains out t ≡ contains tables t)
topo_sort_complete_example = topo_sort_complete tables constraints refl
