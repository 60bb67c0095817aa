-- ===== src/Connector.antt =====
-- The order of the tables under foreign keys: topoSort of internal/connector/fk.go. The constraints are
-- read from the server by a query, which is not modelled.
pub mod Ends
pub mod Distinct
pub mod Within
pub mod Order
mod Tests
use mysql_pitr.Base.{
  ℕ, zero, suc, ◌+◌, ◌&&◌, not, if◌then◌else◌, Bool, true, false, List, [], ◌∷◌, ◌++◌, Option, none,
  some, keep, length,
}
use mysql_pitr.Base.Text.{Text, text_eq, contains}
use mysql_pitr.Base.Int.{ℤ, pos, negsuc}
use mysql_pitr.Base.Result.{Result, ok, err}
use mysql_pitr.Base.Dict.{lookup, insert}

pub record FkConstraint : Type 0 where
  pub table_name : Text
  pub ref_table_name : Text

abbrev pub is_zero : ℤ → Bool
is_zero (pos zero) = true
is_zero _ = false

-- `v++` and `v--`.
abbrev pub increment : ℤ → ℤ
increment (pos n) = pos (suc n)
increment (negsuc zero) = pos 0
increment (negsuc (suc n)) = negsuc n

abbrev pub decrement : ℤ → ℤ
decrement (pos zero) = negsuc 0
decrement (pos (suc n)) = pos n
decrement (negsuc n) = negsuc (suc n)

abbrev pub zero_without : Option ℤ → ℤ
zero_without none = pos 0
zero_without (some v) = v

-- `inDegree[t]`, 0 where there is none.
abbrev pub degree : Text → List (Text × ℤ) → ℤ
degree t ds = zero_without (lookup t ds)

abbrev pub is_found : Option ℤ → Bool
is_found none = false
is_found (some v) = true

abbrev pub none_without : Option (List Text) → List Text
none_without none = []
none_without (some cs) = cs

abbrev pub children_of : Text → List (Text × List Text) → List Text
children_of t ch = none_without (lookup t ch)

abbrev pub no_degrees : List Text → List (Text × ℤ) → List (Text × ℤ)
no_degrees [] ds = ds
no_degrees (t ∷ ts) ds = no_degrees ts (insert t (pos 0) ds)

-- One constraint with both tables in the set.
abbrev pub add_edge :
    FkConstraint
    → List (Text × List Text) × List (Text × ℤ)
    → List (Text × List Text) × List (Text × ℤ)
add_edge c (ch, ds) =
    if is_found (lookup c.ref_table_name ds) && is_found (lookup c.table_name ds)
    then (
      insert c.ref_table_name (children_of c.ref_table_name ch ++ c.table_name ∷ []) ch,
      insert c.table_name (increment (degree c.table_name ds)) ds,
    )
    else (ch, ds)

abbrev pub add_edges :
    List FkConstraint
    → List (Text × List Text) × List (Text × ℤ)
    → List (Text × List Text) × List (Text × ℤ)
add_edges [] g = g
add_edges (c ∷ cs) g = add_edges cs (add_edge c g)

-- The children of a table that was taken: the queue behind it.
unfoldable pub release : List Text → List (Text × ℤ) → List Text → List (Text × ℤ) × List Text
release [] ds q = (ds, q)
release (c ∷ cs) ds q =
    let v = decrement (degree c ds) in
    release cs (insert c v ds) (if is_zero v then q ++ c ∷ [] else q)

-- Kahn's loop, with fuel; `none` is out of fuel.
unfoldable pub kahn :
    ℕ → List (Text × List Text) → List (Text × ℤ) → List Text → List Text → Option (List Text)
kahn fuel ch ds [] ordered = some ordered
kahn zero ch ds (t ∷ q) ordered = none
kahn (suc fuel) ch ds (t ∷ q) ordered =
    let (ds', q') = release (children_of t ch) ds q in kahn fuel ch ds' q' (ordered ++ t ∷ [])

-- The tables that the loop did not reach, in their order.
abbrev pub with_rest : List Text → List Text → List Text
with_rest tables ordered = ordered ++ keep (λ t. not (contains ordered t)) tables

abbrev pub graph_of : List Text → List FkConstraint → List (Text × List Text) × List (Text × ℤ)
graph_of tables cs = add_edges cs ([], no_degrees tables [])

abbrev pub roots : List (Text × ℤ) → List Text → List Text
roots ds tables = keep (λ t. is_zero (degree t ds)) tables

-- The tables that may still join the queue, and those in it.
unfoldable pub kahn_fuel : List (Text × ℤ) → List Text → ℕ
kahn_fuel ds q = length q + length ds

unfoldable pub topo_sort : List Text → List FkConstraint → Option (List Text)
topo_sort tables cs =
    let (ch, ds) = graph_of tables cs in
    let q = roots ds tables in
    elim (kahn (kahn_fuel ds q) ch ds q []) [
      | none ↦ none
      | some ordered ↦ some (with_rest tables ordered)
    ]

-- The order, from the answer of the query.
unfoldable pub get_fk_order : Result (List FkConstraint) → List Text → Result (Option (List Text))
get_fk_order answer [] = ok (some [])
get_fk_order (err e) (t ∷ ts) = err e
get_fk_order (ok cs) (t ∷ ts) = ok (topo_sort (t ∷ ts) cs)
