-- ===== src/Connector/Ends.antt =====
-- Kahn's loop in topoSort of internal/connector/fk.go ends.
use mysql_pitr.Base.{
  ℕ, zero, suc, ◌+◌, ◌≤◌, ◌≡◌, refl, if◌then◌else◌, Bool, true, false, List, [], ◌∷◌, ◌++◌, some,
  length, length-append, Bool-cases, inl, inr, arith,
}
use mysql_pitr.Base.Text.{Text, text_eq}
use mysql_pitr.Base.Int.{ℤ, pos, negsuc}
use mysql_pitr.Base.Dict.{lookup, insert}
use mysql_pitr.Connector.{is_zero, decrement, degree, children_of, release, kahn, kahn_fuel}

-- 1 for a positive degree, 0 for any other.
abbrev up : ℤ → ℕ
up (pos (suc n)) = 1
up _ = 0

abbrev positives : List (Text × ℤ) → ℕ
positives [] = 0
positives ((t, v) ∷ ds) = up v + positives ds

positives-insert :
    (c : Text) (w : ℤ) (ds : List (Text × ℤ))
    → positives (insert c w ds) + up (degree c ds) ≡ positives ds + up w
unfolding insert lookup
positives-insert c w [] = omega arith
positives-insert c w ((t, v) ∷ ds) = elim (Bool-cases (text_eq t c)) [
  | inl e ↦ rw e (omega arith)
  | inr e ↦ rw e (omega (arith, positives-insert c w ds))
]

abbrev one_if : Bool → ℕ
one_if true = 1
one_if false = 0

up-decrement : (v : ℤ) → up (decrement v) + one_if (is_zero (decrement v)) ≤ up v
up-decrement (pos zero) = omega arith
up-decrement (pos (suc zero)) = omega arith
up-decrement (pos (suc (suc n))) = omega arith
up-decrement (negsuc n) = omega arith

length-queued :
    (b : Bool) (q : List Text) (c : Text)
    → length (if b then q ++ c ∷ [] else q) ≡ length q + one_if b
length-queued true q c = length-append q (c ∷ [])
length-queued false q c = omega arith

abbrev room : List (Text × ℤ) × List Text → ℕ
room (ds, q) = length q + positives ds

release-room :
    (cs : List Text) (ds : List (Text × ℤ)) (q : List Text)
    → room (release cs ds q) ≤ length q + positives ds
unfolding release
release-room [] ds q = omega arith
release-room (c ∷ cs) ds q =
    let v = decrement (degree c ds) in
    let rest = release-room cs (insert c v ds) (if is_zero v then q ++ c ∷ [] else q) in
    omega (
      arith,
      rest,
      length-queued (is_zero v) q c,
      positives-insert c v ds,
      up-decrement (degree c ds),
    )

kahn-ends :
    (fuel : ℕ) (ch : List (Text × List Text)) (ds : List (Text × ℤ)) (q ordered : List Text)
    → length q + positives ds ≤ fuel
    → (out : List Text) × (kahn fuel ch ds q ordered ≡ some out)
unfolding kahn
kahn-ends zero ch ds [] ordered h = (ordered, refl)
kahn-ends (suc fuel) ch ds [] ordered h = (ordered, refl)
kahn-ends zero ch ds (t ∷ q) ordered h = absurd (omega arith)
kahn-ends (suc fuel) ch ds (t ∷ q) ordered h =
    let (ds', q') = release (children_of t ch) ds q in
    kahn-ends fuel ch ds' q' (ordered ++ t ∷ [])
      (omega (arith, release-room (children_of t ch) ds q))

up_le : (v : ℤ) → up v ≤ 1
up_le (pos zero) = omega arith
up_le (pos (suc n)) = omega arith
up_le (negsuc n) = omega arith

positives_le : (ds : List (Text × ℤ)) → positives ds ≤ length ds
positives_le [] = omega arith
positives_le ((t, v) ∷ ds) = omega (arith, positives_le ds, up_le v)

-- The fuel that topoSort gets is enough.
pub kahn_fuel_suffices :
    (ch : List (Text × List Text)) (ds : List (Text × ℤ)) (q ordered : List Text)
    → (out : List Text) × (kahn (kahn_fuel ds q) ch ds q ordered ≡ some out)
unfolding kahn_fuel
kahn_fuel_suffices ch ds q ordered =
    kahn-ends (kahn_fuel ds q) ch ds q ordered (omega (arith, positives_le ds))
