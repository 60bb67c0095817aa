-- ===== src/Pitr/Preview/Invariant.antt =====
-- What the preview of internal/server/pitr/handler.go keeps to, whatever an agent sends.
use mysql_pitr.Base.{
  ℕ, ◌≤◌, ◌≡◌, ◌⊎◌, refl, sym, ap, ◌∙◌, Bool, true, false, not, ◌&&◌, ◌||◌, List, [], ◌∷◌, ◌++◌,
  some, arith, length, map, leb, Bool-cases, inl, inr, if◌then◌else◌, length-append, ==_iff,
}
use mysql_pitr.Base.Text.{Text, is_empty, contains, text_eq, text_eq_iff}
use mysql_pitr.Base.Int.{ℤ, pos, negsuc}
use mysql_pitr.Base.Dict.{lookup, insert, lookup-insert}
use mysql_pitr.Pitr.Preview.{
  TxMetaWire, StatementWire, Preview, new_preview, stage_tx_meta, stage_statement, stage_sql,
  sql_of, or_none, has_order, int_eq,
}

-- No text is listed twice.
abbrev pub all_distinct : List Text → Bool
all_distinct [] = true
all_distinct (t ∷ ts) = not (contains ts t) && all_distinct ts

-- No two statements have the same order.
abbrev pub distinct_orders : List StatementWire → Bool
distinct_orders [] = true
distinct_orders (w ∷ ws) = not (has_order w.tx_order ws) && distinct_orders ws

pub record IsValid (p : Preview) : Type 0 where
  -- The identifiers of the transactions are the known ones, and they are different.
  pub ids : map (λ (m : TxMetaWire). m.tx_id) p.metas ≡ p.known
  pub distinct : all_distinct p.known ≡ true
  pub bounded : length p.metas ≤ p.max_entries
  -- The statements of each transaction have different orders.
  pub orders : (id : Text) → distinct_orders (sql_of id p) ≡ true
  -- Only a known transaction has statements.
  pub staged : (id : Text) → (contains p.known id ≡ true) ⊎ (sql_of id p ≡ [])

contains-append :
    (ts : List Text) (t s : Text) → contains (ts ++ t ∷ []) s ≡ (contains ts s || text_eq t s)
contains-append [] t s = ground arith
contains-append (u ∷ ts) t s = ground (arith, contains-append ts t s)

all_distinct-append :
    (ts : List Text) (t : Text)
    → all_distinct ts ≡ true
    → contains ts t ≡ false
    → all_distinct (ts ++ t ∷ []) ≡ true
all_distinct-append [] t h k = refl
all_distinct-append (u ∷ ts) t h k =
    ground
      (arith, all_distinct-append ts t, contains-append ts t u, text_eq_iff t u, text_eq_iff u t)

int_eq_sym : (a b : ℤ) → int_eq a b ≡ int_eq b a
int_eq_sym (pos m) (pos n) = ground (arith, ==_iff m n, ==_iff n m)
int_eq_sym (pos m) (negsuc n) = refl
int_eq_sym (negsuc m) (pos n) = refl
int_eq_sym (negsuc m) (negsuc n) = ground (arith, ==_iff m n, ==_iff n m)

has_order-append :
    (n : ℤ) (ws : List StatementWire) (w : StatementWire)
    → has_order n (ws ++ w ∷ []) ≡ (has_order n ws || int_eq w.tx_order n)
has_order-append n [] w = ground arith
has_order-append n (x ∷ ws) w = ground (arith, has_order-append n ws w)

distinct_orders-append :
    (ws : List StatementWire) (w : StatementWire)
    → distinct_orders ws ≡ true
    → has_order w.tx_order ws ≡ false
    → distinct_orders (ws ++ w ∷ []) ≡ true
distinct_orders-append [] w h k = refl
distinct_orders-append (x ∷ ws) w h k = ground (
  arith,
  distinct_orders-append ws w,
  has_order-append x.tx_order ws w,
  int_eq_sym w.tx_order x.tx_order,
)

map-append_one :
    (f : TxMetaWire → Text) (ms : List TxMetaWire) (m : TxMetaWire)
    → map f (ms ++ m ∷ []) ≡ map f ms ++ f m ∷ []
map-append_one f [] m = refl
map-append_one f (x ∷ ms) m = ap (◌∷◌ (f x)) (map-append_one f ms m)

stage_tx_meta-IsValid :
    (meta : TxMetaWire) (p : Preview) → IsValid p → IsValid (stage_tx_meta meta p)
unfolding stage_tx_meta
stage_tx_meta-IsValid meta p v = elim (Bool-cases (contains p.known meta.tx_id)) [
  | inl e ↦ rw (e, stage_tx_meta) v
  | inr e ↦ elim (Bool-cases (leb p.max_entries (length p.metas))) [
    | inl b ↦
        rw (e, stage_tx_meta)
          (rw b (record {
            ids = v.ids;
            distinct = v.distinct;
            bounded = v.bounded;
            orders = v.orders;
            staged = v.staged;
          }))
    | inr b ↦
        rw (e, stage_tx_meta)
          (rw b (record {
            ids =
                map-append_one (λ m. m.tx_id) p.metas meta ∙ ap (λ ts. ts ++ meta.tx_id ∷ []) v.ids;
            distinct = all_distinct-append p.known meta.tx_id v.distinct e;
            bounded = ground (arith, length-append p.metas (meta ∷ []));
            orders = v.orders;
            staged = λ id. ground (arith, v.staged id, contains-append p.known meta.tx_id id);
          }))
  ]
]

sql_of-insert :
    (p : Preview) (j id : Text) (ws : List StatementWire)
    → sql_of id (record p { sql_by_tx = insert j ws p.sql_by_tx })
      ≡ (if text_eq j id then ws else sql_of id p)
sql_of-insert p j id ws = ap or_none (lookup-insert j id ws p.sql_by_tx) ∙ by_cases (text_eq j id)
  where
    by_cases :
        (b : Bool)
        → or_none (if b then some ws else lookup id p.sql_by_tx) ≡ (if b then ws else sql_of id p)
    by_cases true = refl
    by_cases false = refl

stage_statement-IsValid :
    (w : StatementWire) (p : Preview) → IsValid p → IsValid (stage_statement w p)
unfolding stage_statement
stage_statement-IsValid w p v = elim (Bool-cases (is_empty w.tx_id)) [
  | inl n ↦ rw (n, stage_statement) v
  | inr n ↦ elim (Bool-cases (contains p.known w.tx_id)) [
    | inr k ↦ rw (n, stage_statement) (rw k v)
    | inl k ↦ elim (Bool-cases (has_order w.tx_order (sql_of w.tx_id p))) [
      | inl d ↦ rw (n, stage_statement) (rw k (rw d v))
      | inr d ↦ rw (n, stage_statement) (rw k (rw d (added k d)))
    ]
  ]
]
  where
    more : List StatementWire
    more = sql_of w.tx_id p ++ w ∷ []

    orders_of :
        (id : Text) (b : Bool)
        → has_order w.tx_order (sql_of w.tx_id p) ≡ false
        → distinct_orders (if b then more else sql_of id p) ≡ true
    orders_of id true d = distinct_orders-append (sql_of w.tx_id p) w (v.orders w.tx_id) d
    orders_of id false d = v.orders id

    staged_of :
        (id : Text)
        → contains p.known w.tx_id ≡ true
        → (contains p.known id ≡ true) ⊎ ((if text_eq w.tx_id id then more else sql_of id p) ≡ [])
    staged_of id k = elim (Bool-cases (text_eq w.tx_id id)) [
      | inl e ↦ inl (ap (contains p.known) (sym ((text_eq_iff w.tx_id id).0 e)) ∙ k)
      | inr e ↦ rw e (v.staged id)
    ]

    added :
        contains p.known w.tx_id ≡ true
        → has_order w.tx_order (sql_of w.tx_id p) ≡ false
        → IsValid (record p { sql_by_tx = insert w.tx_id more p.sql_by_tx })
    added k d = record {
      ids = v.ids;
      distinct = v.distinct;
      bounded = v.bounded;
      orders = λ id. rw (sql_of-insert p w.tx_id id more) (orders_of id (text_eq w.tx_id id) d);
      staged = λ id. rw (sql_of-insert p w.tx_id id more) (staged_of id k);
    }

stage_sql-IsValid : (ws : List StatementWire) (p : Preview) → IsValid p → IsValid (stage_sql ws p)
unfolding stage_sql
stage_sql-IsValid [] p v = v
stage_sql-IsValid (w ∷ ws) p v =
    stage_sql-IsValid ws (stage_statement w p) (stage_statement-IsValid w p v)

-- The two kinds of stream events that a preview takes.
pub data Staging : Type 0 where
  tx_meta : TxMetaWire → Staging
  sql : List StatementWire → Staging

abbrev pub staged_all : List Staging → Preview → Preview
staged_all [] p = p
staged_all (tx_meta m ∷ evs) p = staged_all evs (stage_tx_meta m p)
staged_all (sql ws ∷ evs) p = staged_all evs (stage_sql ws p)

staged_all-IsValid : (evs : List Staging) (p : Preview) → IsValid p → IsValid (staged_all evs p)
staged_all-IsValid [] p v = v
staged_all-IsValid (tx_meta m ∷ evs) p v = staged_all-IsValid evs _ (stage_tx_meta-IsValid m p v)
staged_all-IsValid (sql ws ∷ evs) p v = staged_all-IsValid evs _ (stage_sql-IsValid ws p v)

-- Whatever events come in whatever order, a preview never holds more transactions than its limit,
-- holds no transaction twice, has statements only for transactions that it holds, and never has two
-- statements of the same order for a transaction.
pub preview-IsValid : (n : ℕ) (evs : List Staging) → IsValid (staged_all evs (new_preview n))
unfolding lookup
preview-IsValid n evs = staged_all-IsValid evs (new_preview n) (record {
  ids = refl;
  distinct = refl;
  bounded = omega arith;
  orders = λ id. refl;
  staged = λ id. inr refl;
})
