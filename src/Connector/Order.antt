-- ===== src/Connector/Order.antt =====
-- What topoSort of internal/connector/fk.go returns.
use mysql_pitr.Base.{
  ℕ, zero, suc, ◌≡◌, ◌≢◌, refl, sym, ap, ◌∙◌, if◌then◌else◌, true, false, not, List, [], ◌∷◌, ◌++◌,
  some, append-nil, append_assoc, keep, All, Bool-cases, inl, inr, arith,
}
use mathlib.Core.Path.{subst}
use mysql_pitr.Base.Text.{Text, text_eq, text_eq_iff, text_eq_refl, contains}
use mysql_pitr.Base.Int.{ℤ, pos, negsuc, is_nonpositive}
use mysql_pitr.Base.Dict.{insert, lookup-insert}
use mysql_pitr.Connector.{
  FkConstraint, is_zero, decrement, degree, children_of, release, kahn, kahn_fuel, with_rest,
  graph_of, roots, topo_sort,
}
use mysql_pitr.Connector.Ends.{kahn_fuel_suffices}
use mysql_pitr.Connector.Within.{
  IsWithin-append, IsWithin-keep, nothing-IsWithin, graph_of-IsGraphOf, kahn-IsWithin,
}
use mysql_pitr.Connector.Distinct.{
  is_distinct, contains-append, contains-keep, is_distinct-keep, is_distinct-append,
}

true≢false : true ≢ false
true≢false e = cc

some_injective : {x y : List Text} → some x ≡ some y → x ≡ y
some_injective e = cc

-- No table twice, and all of them without a table that they wait for.
abbrev Reached : List Text → List (Text × ℤ) → Type 0
Reached ts ds = (is_distinct ts ≡ true) × All (λ t. is_nonpositive (degree t ds) ≡ true) ts

decrement-nonpositive : (v : ℤ) → is_nonpositive v ≡ true → is_nonpositive (decrement v) ≡ true
decrement-nonpositive (pos zero) h = refl
decrement-nonpositive (pos (suc n)) h = cc
decrement-nonpositive (negsuc n) h = refl

zero-nonpositive : (v : ℤ) → is_zero v ≡ true → is_nonpositive v ≡ true
zero-nonpositive (pos zero) h = refl
zero-nonpositive (pos (suc n)) h = cc
zero-nonpositive (negsuc n) h = refl

freed-positive : (v : ℤ) → is_zero (decrement v) ≡ true → is_nonpositive v ≡ false
freed-positive (pos zero) h = cc
freed-positive (pos (suc n)) h = refl
freed-positive (negsuc n) h = cc

degree-insert :
    (c t : Text) (v : ℤ) (ds : List (Text × ℤ))
    → degree t (insert c v ds) ≡ (if text_eq c t then v else degree t ds)
degree-insert c t v ds = elim (Bool-cases (text_eq c t)) [
  | inl e ↦ rw (lookup-insert c t v ds, e) refl
  | inr e ↦ rw (lookup-insert c t v ds, e) refl
]

-- Taking one from the degree of a table leaves the others' reached.
lowered :
    (c : Text) (ds : List (Text × ℤ)) (ts : List Text)
    → All (λ t. is_nonpositive (degree t ds) ≡ true) ts
    → All (λ t. is_nonpositive (degree t (insert c (decrement (degree c ds)) ds)) ≡ true) ts
lowered c ds [] h = tt
lowered c ds (t ∷ ts) (h, k) = (
  elim (Bool-cases (text_eq c t)) [
    | inl e ↦
        let same : is_nonpositive (degree c ds) ≡ true =
          ap (λ x. is_nonpositive (degree x ds)) ((text_eq_iff c t).0 e) ∙ h in
        rw (degree-insert c t (decrement (degree c ds)) ds, e)
          (decrement-nonpositive (degree c ds) same)
    | inr e ↦ rw (degree-insert c t (decrement (degree c ds)) ds, e) h
  ],
  lowered c ds ts k,
)

-- A table with a positive degree is not reached.
not_reached :
    (c : Text) (ds : List (Text × ℤ)) (ts : List Text)
    → All (λ t. is_nonpositive (degree t ds) ≡ true) ts
    → is_nonpositive (degree c ds) ≡ false
    → contains ts c ≡ false
not_reached c ds [] h n = refl
not_reached c ds (t ∷ ts) (h, k) n = elim (Bool-cases (text_eq t c)) [
  | inl e ↦
      let same = ap (λ x. is_nonpositive (degree x ds)) ((text_eq_iff t c).0 e) in
      absurd (true≢false (sym h ∙ same ∙ n))
  | inr e ↦ rw (e, not_reached c ds ts k n) refl
]

All-snoc : (P : Text → Type 0) (xs : List Text) (y : Text) → All P xs → P y → All P (xs ++ y ∷ [])
All-snoc P [] y h p = (p, tt)
All-snoc P (x ∷ xs) y (q, h) p = (q, All-snoc P xs y h p)

-- The table that a decrement frees joins those that are reached.
queued :
    (c : Text) (ds : List (Text × ℤ)) (ts : List Text)
    → Reached ts ds
    → is_zero (decrement (degree c ds)) ≡ true
    → Reached (ts ++ c ∷ []) (insert c (decrement (degree c ds)) ds)
queued c ds ts (d, h) z =
    let v = decrement (degree c ds) in
    let own : degree c (insert c v ds) ≡ v =
      degree-insert c c v ds ∙ ap (λ b. if b then v else degree c ds) (text_eq_refl c) in
    (
      is_distinct-append ts (c ∷ []) d refl
          (not_reached c ds ts h (freed-positive (degree c ds) z), tt),
      All-snoc _ ts c (lowered c ds ts h) (ap is_nonpositive own ∙ zero-nonpositive v z),
    )

release-Reached :
    (cs : List Text) (ds : List (Text × ℤ)) (before q : List Text)
    → Reached (before ++ q) ds
    → let (ds', q') = release cs ds q in Reached (before ++ q') ds'
unfolding release
release-Reached [] ds before q h = h
release-Reached (c ∷ cs) ds before q (d, h) =
    let v = decrement (degree c ds) in
    release-Reached cs (insert c v ds) before (if is_zero v then q ++ c ∷ [] else q)
      (elim (Bool-cases (is_zero v)) [
        | inl z ↦ rw z (
            subst (λ ts. Reached ts (insert c v ds)) (append_assoc before q (c ∷ []))
              (queued c ds (before ++ q) (d, h) z))
        | inr z ↦ rw z (d, lowered c ds (before ++ q) h)
      ])

kahn-distinct :
    (fuel : ℕ) (ch : List (Text × List Text)) (ds : List (Text × ℤ)) (q ordered out : List Text)
    → Reached (ordered ++ q) ds
    → kahn fuel ch ds q ordered ≡ some out
    → is_distinct out ≡ true
unfolding kahn
kahn-distinct zero ch ds [] ordered out (d, h) e =
    ap is_distinct (sym (some_injective e) ∙ sym (append-nil ordered)) ∙ d
kahn-distinct (suc fuel) ch ds [] ordered out (d, h) e =
    ap is_distinct (sym (some_injective e) ∙ sym (append-nil ordered)) ∙ d
kahn-distinct zero ch ds (t ∷ q) ordered out h e = cc
kahn-distinct (suc fuel) ch ds (t ∷ q) ordered out h e =
    let (ds', q') = release (children_of t ch) ds q in
    kahn-distinct fuel ch ds' q' (ordered ++ t ∷ []) out
      (release-Reached (children_of t ch) ds (ordered ++ t ∷ []) q
        (subst (λ ts. Reached ts ds) (sym (append_assoc ordered (t ∷ []) q)) h))
      e

roots-Reached :
    (ds : List (Text × ℤ)) (tables : List Text)
    → is_distinct tables ≡ true
    → Reached (roots ds tables) ds
roots-Reached ds tables d = (is_distinct-keep (λ t. is_zero (degree t ds)) tables d, each tables)
  where
    each : (ts : List Text) → All (λ t. is_nonpositive (degree t ds) ≡ true) (roots ds ts)
    each [] = tt
    each (t ∷ ts) = elim (Bool-cases (is_zero (degree t ds))) [
      | inl e ↦ rw e (zero-nonpositive (degree t ds) e, each ts)
      | inr e ↦ rw e (each ts)
    ]

-- The rest of the tables, behind those that the loop reached.
unreached :
    (ordered tables : List Text)
    → All (λ t. contains ordered t ≡ false) (keep (λ t. not (contains ordered t)) tables)
unreached ordered [] = tt
unreached ordered (t ∷ ts) = elim (Bool-cases (contains ordered t)) [
  | inl e ↦ rw e (unreached ordered ts)
  | inr e ↦ rw e (e, unreached ordered ts)
]

contains-with_rest :
    (ordered tables : List Text) (t : Text)
    → contains tables t ≡ true
    → contains (with_rest tables ordered) t ≡ true
contains-with_rest ordered tables t h = elim (Bool-cases (contains ordered t)) [
  | inl e ↦ rw (contains-append ordered (keep (λ x. not (contains ordered x)) tables) t, e) refl
  | inr e ↦
      rw (contains-append ordered (keep (λ x. not (contains ordered x)) tables) t, e)
        (contains-keep (λ x. not (contains ordered x)) tables t (ap not e) h)
]

same_tables :
    (tables out : List Text) (t : Text)
    → (contains tables t ≡ true → contains out t ≡ true)
    → (contains out t ≡ true → contains tables t ≡ true)
    → contains out t ≡ contains tables t
same_tables tables out t h k = ground (arith, h, k)

-- For tables without repetition, whatever the constraints, cycles included: the sort ends within its
-- fuel, and returns the same tables, none of them twice.
pub topo_sort_complete :
    (tables : List Text) (cs : List FkConstraint)
    → is_distinct tables ≡ true
    → (out : List Text) × (topo_sort tables cs ≡ some out)
      × (is_distinct out ≡ true)
      × ((t : Text) → contains out t ≡ contains tables t)
unfolding topo_sort
topo_sort_complete tables cs d =
    let (ch, ds) = graph_of tables cs in
    let q = roots ds tables in
    let (ordered, e) = kahn_fuel_suffices ch ds q [] in
    let rest = keep (λ t. not (contains ordered t)) tables in
    let from_loop =
      kahn-IsWithin tables (kahn_fuel ds q) ch ds q [] ordered (graph_of-IsGraphOf tables cs).0
        (IsWithin-keep (λ t. is_zero (degree t ds)) tables tables (λ t a. a))
        (nothing-IsWithin tables) e in
    (
      with_rest tables ordered,
      rw (e, topo_sort) refl,
      is_distinct-append ordered rest
          (kahn-distinct (kahn_fuel ds q) ch ds q [] ordered (roots-Reached ds tables d) e)
          (is_distinct-keep (λ t. not (contains ordered t)) tables d) (unreached ordered tables),
      λ t. same_tables tables (with_rest tables ordered) t (contains-with_rest ordered tables t) (
          IsWithin-append tables ordered rest from_loop
            (IsWithin-keep (λ t. not (contains ordered t)) tables tables (λ t a. a)) t),
    )
