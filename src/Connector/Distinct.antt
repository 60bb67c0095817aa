-- ===== src/Connector/Distinct.antt =====
-- Lists of tables without repetitions.
use mysql_pitr.Base.{
  ◌≡◌, refl, ap, ◌∙◌, Bool, true, false, not, ◌&&◌, ◌||◌, List, [], ◌∷◌, ◌++◌, keep, All,
  Bool-cases, inl, inr, arith,
}
use mysql_pitr.Base.Text.{Text, text_eq, text_eq_iff, contains}

abbrev pub is_distinct : List Text → Bool
is_distinct [] = true
is_distinct (t ∷ ts) = not (contains ts t) && is_distinct ts

pub contains-append :
    (xs ys : List Text) (t : Text) → contains (xs ++ ys) t ≡ (contains xs t || contains ys t)
contains-append [] ys t = refl
contains-append (x ∷ xs) ys t = ground (arith, contains-append xs ys t)

pub contains-keep :
    (p : Text → Bool) (xs : List Text) (t : Text)
    → p t ≡ true
    → contains xs t ≡ true
    → contains (keep p xs) t ≡ true
contains-keep p [] t h k = k
contains-keep p (x ∷ xs) t h k = elim (Bool-cases (text_eq x t)) [
  | inl e ↦ rw (ap p ((text_eq_iff x t).0 e) ∙ h) (rw e refl)
  | inr e ↦
      let ih = contains-keep p xs t h (rw e at k) in
      elim (Bool-cases (p x)) [ inl q ↦ rw q (rw (e, ih) refl) | inr q ↦ rw q ih ]
]

contains-keep_none :
    (p : Text → Bool) (xs : List Text) (t : Text)
    → contains xs t ≡ false
    → contains (keep p xs) t ≡ false
contains-keep_none p [] t h = refl
contains-keep_none p (x ∷ xs) t h = elim (Bool-cases (p x)) [
  | inl q ↦ rw q (ground (arith, contains-keep_none p xs t))
  | inr q ↦ rw q (ground (arith, contains-keep_none p xs t))
]

pub is_distinct-keep :
    (p : Text → Bool) (xs : List Text) → is_distinct xs ≡ true → is_distinct (keep p xs) ≡ true
is_distinct-keep p [] h = refl
is_distinct-keep p (x ∷ xs) h = elim (Bool-cases (p x)) [
  | inl q ↦ rw q (ground (arith, contains-keep_none p xs x, is_distinct-keep p xs))
  | inr q ↦ rw q (ground (arith, is_distinct-keep p xs))
]

none_in :
    (x : Text) (xs ys : List Text)
    → All (λ y. contains (x ∷ xs) y ≡ false) ys
    → (contains ys x ≡ false) × All (λ y. contains xs y ≡ false) ys
none_in x xs [] h = (refl, tt)
none_in x xs (y ∷ ys) (h, k) =
    let (a, b) = none_in x xs ys k in
    (ground (arith, a, text_eq_iff x y, text_eq_iff y x), (ground arith, b))

pub is_distinct-append :
    (xs ys : List Text)
    → is_distinct xs ≡ true
    → is_distinct ys ≡ true
    → All (λ y. contains xs y ≡ false) ys
    → is_distinct (xs ++ ys) ≡ true
is_distinct-append [] ys h k a = k
is_distinct-append (x ∷ xs) ys h k a =
    let (b, c) = none_in x xs ys a in
    ground (arith, b, is_distinct-append xs ys (ground arith) k c, contains-append xs ys x)
