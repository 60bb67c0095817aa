-- ===== src/Connector/Within.antt =====
-- topoSort of internal/connector/fk.go returns no other tables than it is given.
use mysql_pitr.Base.{
  ℕ, zero, suc, ◌≡◌, refl, sym, ap, ◌∙◌, if◌then◌else◌, Bool, true, List, [], ◌∷◌, ◌++◌, some, keep,
  Bool-cases, inl, inr, arith,
}
use mathlib.Core.Path.{subst}
use mysql_pitr.Base.Text.{Text, text_eq, text_eq_iff, text_eq_refl, contains}
use mysql_pitr.Base.Int.{ℤ, pos}
use mysql_pitr.Base.Dict.{lookup, insert, lookup-insert}
use mysql_pitr.Connector.{
  FkConstraint, is_zero, decrement, degree, is_found, children_of, no_degrees, add_edge, add_edges,
  release, kahn, graph_of,
}
use mysql_pitr.Connector.Distinct.{contains-append}

some_injective : {x y : List Text} → some x ≡ some y → x ≡ y
some_injective e = cc

abbrev pub IsWithin : List Text → List Text → Type 0
IsWithin tables ts = (t : Text) → contains ts t ≡ true → contains tables t ≡ true

abbrev Graph : Type 0
Graph = List (Text × List Text) × List (Text × ℤ)

abbrev IsGraphOf : List Text → Graph → Type 0
IsGraphOf tables (ch, ds) =
    ((p : Text) → IsWithin tables (children_of p ch))
    × ((t : Text) → is_found (lookup t ds) ≡ true → contains tables t ≡ true)

pub IsWithin-append :
    (tables xs ys : List Text)
    → IsWithin tables xs
    → IsWithin tables ys
    → IsWithin tables (xs ++ ys)
IsWithin-append tables xs ys h k t e = elim (Bool-cases (contains xs t)) [
  | inl a ↦ h t a
  | inr a ↦ k t (ground (arith, contains-append xs ys t))
]

IsWithin-one : (tables : List Text) (c : Text) → contains tables c ≡ true → IsWithin tables (c ∷ [])
IsWithin-one tables c h t e = elim (Bool-cases (text_eq c t)) [
  | inl q ↦ ap (contains tables) (sym ((text_eq_iff c t).0 q)) ∙ h
  | inr q ↦ absurd (ground arith)
]

pub IsWithin-keep :
    (p : Text → Bool) (tables ts : List Text) → IsWithin tables ts → IsWithin tables (keep p ts)
IsWithin-keep p tables [] h = h
IsWithin-keep p tables (x ∷ ts) h = elim (Bool-cases (p x)) [
  | inl q ↦ rw q (
      IsWithin-append tables (x ∷ []) (keep p ts)
        (IsWithin-one tables x (h x (rw (text_eq_refl x) refl)))
        (IsWithin-keep p tables ts (λ t e. h t (rw e (ground arith)))))
  | inr q ↦ rw q (IsWithin-keep p tables ts (λ t e. h t (rw e (ground arith))))
]

found-insert :
    (tables : List Text) (c : Text) (v : ℤ) (ds : List (Text × ℤ))
    → contains tables c ≡ true
    → ((t : Text) → is_found (lookup t ds) ≡ true → contains tables t ≡ true)
    → (t : Text) → is_found (lookup t (insert c v ds)) ≡ true
    → contains tables t ≡ true
found-insert tables c v ds h k t e = elim (Bool-cases (text_eq c t)) [
  | inl q ↦ ap (contains tables) (sym ((text_eq_iff c t).0 q)) ∙ h
  | inr q ↦ k t (rw (lookup-insert c t v ds, q) at e)
]

no_degrees-found :
    (tables ts : List Text) (ds : List (Text × ℤ))
    → IsWithin tables ts
    → ((t : Text) → is_found (lookup t ds) ≡ true → contains tables t ≡ true)
    → (t : Text) → is_found (lookup t (no_degrees ts ds)) ≡ true
    → contains tables t ≡ true
no_degrees-found tables [] ds h k = k
no_degrees-found tables (x ∷ ts) ds h k =
    no_degrees-found tables ts (insert x (pos 0) ds) (λ t e. h t (rw e (ground arith)))
      (found-insert tables x (pos 0) ds (h x (rw (text_eq_refl x) refl)) k)

children-insert :
    (tables : List Text) (r c : Text) (ch : List (Text × List Text))
    → contains tables c ≡ true
    → ((p : Text) → IsWithin tables (children_of p ch))
    → (p : Text) → IsWithin tables (children_of p (insert r (children_of r ch ++ c ∷ []) ch))
children-insert tables r c ch h k p = elim (Bool-cases (text_eq r p)) [
  | inl q ↦
      rw (lookup-insert r p (children_of r ch ++ c ∷ []) ch, q)
        (IsWithin-append tables (children_of r ch) (c ∷ []) (k r) (IsWithin-one tables c h))
  | inr q ↦ rw (lookup-insert r p (children_of r ch ++ c ∷ []) ch, q) (k p)
]

add_edge-IsGraphOf :
    (tables : List Text) (c : FkConstraint) (g : Graph)
    → IsGraphOf tables g
    → IsGraphOf tables (add_edge c g)
add_edge-IsGraphOf tables c (ch, ds) (h, k) =
    elim (Bool-cases (is_found (lookup c.ref_table_name ds))) [
      | inr a ↦ rw a (h, k)
      | inl a ↦ elim (Bool-cases (is_found (lookup c.table_name ds))) [
        | inr b ↦ rw (a, b) (h, k)
        | inl b ↦
            rw (a, b)
              (
                children-insert tables c.ref_table_name c.table_name ch (k c.table_name b) h,
                found-insert tables c.table_name _ ds (k c.table_name b) k,
              )
      ]
    ]

add_edges-IsGraphOf :
    (tables : List Text) (cs : List FkConstraint) (g : Graph)
    → IsGraphOf tables g
    → IsGraphOf tables (add_edges cs g)
add_edges-IsGraphOf tables [] g h = h
add_edges-IsGraphOf tables (c ∷ cs) g h =
    add_edges-IsGraphOf tables cs (add_edge c g) (add_edge-IsGraphOf tables c g h)

pub nothing-IsWithin : (tables : List Text) → IsWithin tables []
nothing-IsWithin tables t e = absurd (ground arith)

pub graph_of-IsGraphOf :
    (tables : List Text) (cs : List FkConstraint) → IsGraphOf tables (graph_of tables cs)
unfolding lookup
graph_of-IsGraphOf tables cs =
    add_edges-IsGraphOf tables cs ([], no_degrees tables [])
      (
        λ p. nothing-IsWithin tables,
        no_degrees-found tables tables [] (λ t e. e) (λ t e. absurd (ground arith)),
      )

release-IsWithin :
    (tables cs : List Text) (ds : List (Text × ℤ)) (q : List Text)
    → IsWithin tables cs
    → IsWithin tables q
    → IsWithin tables (release cs ds q).1
unfolding release
release-IsWithin tables [] ds q h k = k
release-IsWithin tables (c ∷ cs) ds q h k =
    let v = decrement (degree c ds) in
    release-IsWithin tables cs (insert c v ds) (if is_zero v then q ++ c ∷ [] else q)
      (λ t e. h t (rw e (ground arith)))
      (elim (Bool-cases (is_zero v)) [
        | inl z ↦ rw z (
            IsWithin-append tables q (c ∷ []) k
              (IsWithin-one tables c (h c (rw (text_eq_refl c) refl))))
        | inr z ↦ rw z k
      ])

pub kahn-IsWithin :
    (tables : List Text) (fuel : ℕ) (ch : List (Text × List Text)) (ds : List (Text × ℤ))
    (q ordered out : List Text)
    → ((p : Text) → IsWithin tables (children_of p ch))
    → IsWithin tables q
    → IsWithin tables ordered
    → kahn fuel ch ds q ordered ≡ some out
    → IsWithin tables out
unfolding kahn
kahn-IsWithin tables zero ch ds [] ordered out c h k e =
    subst (IsWithin tables) (some_injective e) k
kahn-IsWithin tables (suc fuel) ch ds [] ordered out c h k e =
    subst (IsWithin tables) (some_injective e) k
kahn-IsWithin tables zero ch ds (t ∷ q) ordered out c h k e = cc
kahn-IsWithin tables (suc fuel) ch ds (t ∷ q) ordered out c h k e =
    let (ds', q') = release (children_of t ch) ds q in
    kahn-IsWithin tables fuel ch ds' q' (ordered ++ t ∷ []) out c
      (release-IsWithin tables (children_of t ch) ds q (c t) (λ x a. h x (rw a (ground arith))))
      (IsWithin-append tables ordered (t ∷ []) k
        (IsWithin-one tables t (h t (rw (text_eq_refl t) refl))))
      e
