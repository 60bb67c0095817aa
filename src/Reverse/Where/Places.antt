-- ===== src/Reverse/Where/Places.antt =====
-- The places of the columns of a key in a row image, and the conditions on them: resolvePKIndices and
-- the helpers of buildWhere of internal/reverse/generator.go.
use mathlib.Core.Path.{subst}
use mysql_pitr.Base.{
  sym, Option, none, ap, ◌+◌, length, ◌∙◌, Bool-cases, ℕ, zero, suc, ◌≡◌, ◌≢◌, ◌⊎◌, inl, inr, refl,
  List, [], ◌∷◌, ◌++◌, some, arith, Option-cases, All, get_elem?,
}
use mysql_pitr.Base.Text.{Text, codes, text_eq, text_eq_iff}
use mysql_pitr.Binlog.Types.{Value, null}
use mysql_pitr.Reverse.Types.{Formats}
use mysql_pitr.Reverse.Literal.{quote_ident, format_value}
use mysql_pitr.Reverse.Where.{
  index_of, present, column_at, predicate, where_parts, where_parts_at, resolve_pk_indices,
  usable_indices,
}

-- `index_of` finds a place that holds the text.
index_of-get_elem? :
    (list : List Text) (s : Text) (i : ℕ) → index_of list s ≡ some i → get_elem? list i ≡ some s
unfolding index_of
index_of-get_elem? [] s i h = cc
index_of-get_elem? (v ∷ list) s zero h = ground (arith, text_eq_iff v s)
index_of-get_elem? (v ∷ list) s (suc i) h =
    ground (arith, text_eq_iff v s, index_of-get_elem? list s i)

-- A place of the row that holds a column of the key.
abbrev pub IsKeyPlace : List Text → List Text → ℕ → Type 0
IsKeyPlace cols [] i = ⊥
IsKeyPlace cols (p ∷ pk) i = (get_elem? cols i ≡ some p) ⊎ IsKeyPlace cols pk i

-- The image has a value there.
abbrev pub HasValue : List Value → ℕ → Type 0
HasValue vs i = (v : Value) × (get_elem? vs i ≡ some v) × (v ≢ null)

-- Such a place, where the image has a value.
abbrev pub IsUsable : List Text → List Text → List Value → ℕ → Type 0
IsUsable cols pk vs i = IsKeyPlace cols pk i × HasValue vs i

abbrev pub IsIn : ℕ → List ℕ → Type 0
IsIn i [] = ⊥
IsIn i (j ∷ js) = (i ≡ j) ⊎ IsIn i js

-- The row has no column of the name `p`, or has one without a value in the image.
abbrev pub IsLacking : List Text → List Value → Text → Type 0
IsLacking cols vs p =
    All (λ c. c ≢ p) cols
    ⊎ ((i : ℕ) × (get_elem? cols i ≡ some p)
        × ((get_elem? vs i ≡ none) ⊎ (get_elem? vs i ≡ some null)))

-- The column `p` of the key is at one of the places, or lacking.
abbrev pub IsCovered : List Text → List Value → List ℕ → Text → Type 0
IsCovered cols vs places p =
    ((i : ℕ) × (get_elem? cols i ≡ some p) × IsIn i places) ⊎ IsLacking cols vs p

-- The condition on one column.
abbrev pub condition : Formats → Text → Option Value → Text
condition fmt c none = quote_ident c ++ codes " IS NULL"
condition fmt c (some v) = quote_ident c ++ (codes " = " ++ format_value fmt v)

abbrev pub conditions_at : Formats → List Text → List Value → List ℕ → List Text
conditions_at fmt cols vs [] = []
conditions_at fmt cols vs (i ∷ places) =
    condition fmt (column_at cols i) (present vs i) ∷ conditions_at fmt cols vs places

-- The conditions on all columns, the first of which has index `i`.
abbrev pub conditions_from : Formats → ℕ → List Text → List Value → List Text
conditions_from fmt i [] vs = []
conditions_from fmt i (c ∷ cols) vs =
    condition fmt c (present vs i) ∷ conditions_from fmt (suc i) cols vs

-- The conditions on the places, or on all columns if there is none.
abbrev pub conditions : Formats → List Text → List Value → List ℕ → List Text
conditions fmt cols vs [] = conditions_from fmt 0 cols vs
conditions fmt cols vs (i ∷ places) = conditions_at fmt cols vs (i ∷ places)

predicate-condition :
    (fmt : Formats) (c : Text) (v : Option Value) → predicate fmt c v ≡ condition fmt c v
unfolding predicate
predicate-condition fmt c none = refl
predicate-condition fmt c (some v) = refl

pub where_parts_at-conditions_at :
    (fmt : Formats) (cols : List Text) (vs : List Value) (places : List ℕ)
    → where_parts_at fmt cols places vs ≡ conditions_at fmt cols vs places
unfolding where_parts_at
where_parts_at-conditions_at fmt cols vs [] = refl
where_parts_at-conditions_at fmt cols vs (i ∷ places) =
    rw (predicate-condition fmt (column_at cols i) (present vs i)) (
      ap (◌∷◌ (condition fmt (column_at cols i) (present vs i)))
        (where_parts_at-conditions_at fmt cols vs places))

pub where_parts-conditions_from :
    (fmt : Formats) (i : ℕ) (cols : List Text) (vs : List Value)
    → where_parts fmt i cols vs ≡ conditions_from fmt i cols vs
unfolding where_parts
where_parts-conditions_from fmt i [] vs = refl
where_parts-conditions_from fmt i (c ∷ cols) vs =
    rw (predicate-condition fmt c (present vs i))
      (ap (◌∷◌ (condition fmt c (present vs i))) (where_parts-conditions_from fmt (suc i) cols vs))

index_of-none : (cols : List Text) (p : Text) → index_of cols p ≡ none → All (λ c. c ≢ p) cols
unfolding index_of
index_of-none [] p h = tt
index_of-none (c ∷ cols) p h = elim (Bool-cases (text_eq c p)) [
  | inl e ↦ ground (arith, h, e)
  | inr e ↦ elim (Option-cases (index_of cols p)) [
    | inl q ↦ (λ k. absurd (ground (arith, e, (text_eq_iff c p).1 k)), index_of-none cols p q)
    | inr (i, q) ↦ ground (arith, h, e, q)
  ]
]

present-none :
    (vs : List Value) (i : ℕ)
    → present vs i ≡ none
    → (get_elem? vs i ≡ none) ⊎ (get_elem? vs i ≡ some null)
unfolding present
present-none vs i h = ground arith

not_null :
    (o : Option Value)
    → (elim o [ none ↦ none | some null ↦ none | some v ↦ some v ]) ≢ none
    → (v : Value) × (o ≡ some v) × (v ≢ null)
not_null none h = absurd (h refl)
not_null (some null) h = absurd (h refl)
not_null (some v) h = (v, refl, λ e. cc)

present-HasValue : (vs : List Value) (i : ℕ) (v : Value) → present vs i ≡ some v → HasValue vs i
unfolding present
present-HasValue vs i v h = not_null (get_elem? vs i) (λ k. cc)

module _ (fmt : Formats) (cols : List Text) where
  All-IsKeyPlace_cons :
      (p : Text) (pk : List Text) (idxs : List ℕ)
      → All (IsKeyPlace cols pk) idxs
      → All (IsKeyPlace cols (p ∷ pk)) idxs
  All-IsKeyPlace_cons p pk [] h = tt
  All-IsKeyPlace_cons p pk (i ∷ idxs) h = (inr h.0, All-IsKeyPlace_cons p pk idxs h.1)

  pub resolve_pk_indices-IsKeyPlace :
      (pk : List Text) → All (IsKeyPlace cols pk) (resolve_pk_indices fmt cols pk).0
  unfolding resolve_pk_indices
  resolve_pk_indices-IsKeyPlace [] = tt
  resolve_pk_indices-IsKeyPlace (p ∷ pk) =
      let rest = All-IsKeyPlace_cons p pk _ (resolve_pk_indices-IsKeyPlace pk) in
      elim (Option-cases (index_of cols p)) [
        | inl e ↦ rw (e, resolve_pk_indices) rest
        | inr (i, e) ↦ rw (e, resolve_pk_indices) (inl (index_of-get_elem? cols p i e), rest)
      ]

  pub usable_indices-IsUsable :
      (pk : List Text) (idxs : List ℕ) (vs : List Value)
      → All (IsKeyPlace cols pk) idxs
      → All (IsUsable cols pk vs) (usable_indices fmt cols idxs vs).0
  unfolding usable_indices
  usable_indices-IsUsable pk [] vs h = tt
  usable_indices-IsUsable pk (i ∷ idxs) vs h =
      let rest = usable_indices-IsUsable pk idxs vs h.1 in
      elim (Option-cases (present vs i)) [
        | inl e ↦ rw (e, usable_indices) rest
        | inr (v, e) ↦ rw (e, usable_indices) ((h.0, present-HasValue vs i v e), rest)
      ]

  All-IsCovered_cons :
      (vs : List Value) (i : ℕ) (places : List ℕ) (ps : List Text)
      → All (IsCovered cols vs places) ps
      → All (IsCovered cols vs (i ∷ places)) ps
  All-IsCovered_cons vs i places [] h = tt
  All-IsCovered_cons vs i places (p ∷ ps) (inl (j, e, m), h) =
      (inl (j, e, inr m), All-IsCovered_cons vs i places ps h)
  All-IsCovered_cons vs i places (p ∷ ps) (inr l, h) = (inr l, All-IsCovered_cons vs i places ps h)

  -- The places of a key with one more column.
  places_without :
      (vs : List Value) (p : Text) (pk : List Text)
      → index_of cols p ≡ none
      → (usable_indices fmt cols (resolve_pk_indices fmt cols (p ∷ pk)).0 vs).0
        ≡ (usable_indices fmt cols (resolve_pk_indices fmt cols pk).0 vs).0
  unfolding resolve_pk_indices
  places_without vs p pk e = rw (e, resolve_pk_indices) refl

  places_with :
      (vs : List Value) (p : Text) (pk : List Text) (i : ℕ)
      → index_of cols p ≡ some i
      → (usable_indices fmt cols (resolve_pk_indices fmt cols (p ∷ pk)).0 vs).0
        ≡ (usable_indices fmt cols (i ∷ (resolve_pk_indices fmt cols pk).0) vs).0
  unfolding resolve_pk_indices
  places_with vs p pk i e = rw (e, resolve_pk_indices) refl

  usable_none :
      (vs : List Value) (i : ℕ) (idxs : List ℕ)
      → present vs i ≡ none
      → (usable_indices fmt cols (i ∷ idxs) vs).0 ≡ (usable_indices fmt cols idxs vs).0
  unfolding usable_indices
  usable_none vs i idxs e = rw (e, usable_indices) refl

  usable_some :
      (vs : List Value) (i : ℕ) (idxs : List ℕ) (v : Value)
      → present vs i ≡ some v
      → (usable_indices fmt cols (i ∷ idxs) vs).0 ≡ i ∷ (usable_indices fmt cols idxs vs).0
  unfolding usable_indices
  usable_some vs i idxs v e = rw (e, usable_indices) refl

  -- Every column of the key is at a usable place, or lacking.
  pub usable-IsCovered :
      (vs : List Value) (pk : List Text)
      → All (IsCovered cols vs (usable_indices fmt cols (resolve_pk_indices fmt cols pk).0 vs).0) pk
  usable-IsCovered vs [] = tt
  usable-IsCovered vs (p ∷ pk) =
      let rest = usable-IsCovered vs pk in
      let idxs = (resolve_pk_indices fmt cols pk).0 in
      elim (Option-cases (index_of cols p)) [
        | inl e ↦
            subst (λ js. All (IsCovered cols vs js) (p ∷ pk)) (sym (places_without vs p pk e))
              (inr (inl (index_of-none cols p e)), rest)
        | inr (i, e) ↦
            let at = index_of-get_elem? cols p i e in
            elim (Option-cases (present vs i)) [
              | inl q ↦
                  subst (λ js. All (IsCovered cols vs js) (p ∷ pk))
                    (sym (places_with vs p pk i e ∙ usable_none vs i idxs q))
                    (inr (inr (i, at, present-none vs i q)), rest)
              | inr (v, q) ↦
                  subst (λ js. All (IsCovered cols vs js) (p ∷ pk))
                    (sym (places_with vs p pk i e ∙ usable_some vs i idxs v q))
                    (
                      inl (i, at, inl refl),
                      All-IsCovered_cons vs i (usable_indices fmt cols idxs vs).0 pk rest,
                    )
            ]
      ]

  -- There is a warning for every column of the key that is not used.
  pub resolved :
      (pk : List Text)
      → length (resolve_pk_indices fmt cols pk).1 + length (resolve_pk_indices fmt cols pk).0
        ≡ length pk
  unfolding resolve_pk_indices
  resolved [] = refl
  resolved (p ∷ pk) = elim (Option-cases (index_of cols p)) [
    | inl e ↦ rw (e, resolve_pk_indices) (omega (arith, resolved pk))
    | inr (i, e) ↦ rw (e, resolve_pk_indices) (omega (arith, resolved pk))
  ]

  pub used :
      (vs : List Value) (idxs : List ℕ)
      → length (usable_indices fmt cols idxs vs).1 + length (usable_indices fmt cols idxs vs).0
        ≡ length idxs
  unfolding usable_indices
  used vs [] = refl
  used vs (i ∷ idxs) = elim (Option-cases (present vs i)) [
    | inl e ↦ rw (e, usable_indices) (omega (arith, used vs idxs))
    | inr (v, e) ↦ rw (e, usable_indices) (omega (arith, used vs idxs))
  ]
