-- ===== src/Executor/Run/Trace.antt =====
-- What the calls of an executor did to the database: the reading of a history that the statements
-- about internal/executor/executor.go are made in.
use mysql_pitr.Base.{
  ℕ, zero, suc, ◌+◌, ◌-◌, ◌≤◌, ◌≡◌, refl, ap, sym, ◌∙◌, none, length, take, drop, length-take,
  length-drop, some, List, [], ◌∷◌, ◌++◌, arith, append_assoc, if◌then◌else◌,
}
use native.Mathlib.Nat.{suc-add}
use mysql_pitr.Base.Text.{Text, is_empty}
use mysql_pitr.Reverse.Types.{Statement}
use mysql_pitr.Executor.Types.{
  ExecError, ExecResult, exec_failed, executed, Event, began, committed, rolled_back, ran,
}

-- A statement that was sent, by its index in the plan, with the answer.
pub record Ran : Type 0 where
  pub index : ℕ
  pub sql : Text
  pub result : ExecResult

-- The statements of the transaction that is open after the calls, oldest first.
abbrev pub open_of : List Event → List Ran
open_of [] = []
open_of (ran i s r ∷ h) = open_of h ++ record { index = i; sql = s; result = r } ∷ []
open_of (began ∷ h) = []
open_of (committed ∷ h) = []
open_of (rolled_back ∷ h) = []
open_of (_ ∷ h) = open_of h

-- The statements of the committed transactions, oldest first.
abbrev pub committed_of : List Event → List Ran
committed_of [] = []
committed_of (committed ∷ h) = committed_of h ++ open_of h
committed_of (_ ∷ h) = committed_of h

-- The statements of a plan that have a text, numbered from `i`.
abbrev pub numbered : ℕ → List Statement → List (ℕ × Text)
numbered i [] = []
numbered i (st ∷ sts) =
    let rest = numbered (suc i) sts in if is_empty st.sql then rest else (i, st.sql) ∷ rest

abbrev pub keys : List Ran → List (ℕ × Text)
keys [] = []
keys (r ∷ rs) = (r.index, r.sql) ∷ keys rs

abbrev failure_of : Ran → ExecResult → List ExecError
failure_of r (exec_failed e) = record { statement = r.index; sql = r.sql; err = e } ∷ []
failure_of r (executed n) = []

-- The errors of the statements that failed.
abbrev pub failures : List Ran → List ExecError
failures [] = []
failures (r ∷ rs) = failure_of r r.result ++ failures rs

abbrev rows_of : ExecResult → ℕ
rows_of (exec_failed e) = 0
rows_of (executed none) = 0
rows_of (executed (some n)) = n

-- The rows that the statements affected, as far as the driver counts them.
abbrev pub total_rows : List Ran → ℕ
total_rows [] = 0
total_rows (r ∷ rs) = rows_of r.result + total_rows rs

pub keys-append : (xs ys : List Ran) → keys (xs ++ ys) ≡ keys xs ++ keys ys
keys-append [] ys = refl
keys-append (x ∷ xs) ys = ap (◌∷◌ (x.index, x.sql)) (keys-append xs ys)

pub failures-append : (xs ys : List Ran) → failures (xs ++ ys) ≡ failures xs ++ failures ys
failures-append [] ys = refl
failures-append (x ∷ xs) ys = simp (failures-append xs ys, append_assoc)

pub total_rows-append : (xs ys : List Ran) → total_rows (xs ++ ys) ≡ total_rows xs + total_rows ys
total_rows-append [] ys = omega arith
total_rows-append (x ∷ xs) ys = omega (arith, total_rows-append xs ys)

numbered-append :
    (i : ℕ) (xs ys : List Statement)
    → numbered i (xs ++ ys) ≡ numbered i xs ++ numbered (i + length xs) ys
numbered-append i [] ys = ap (λ (k : ℕ). numbered k ys) (omega arith)
numbered-append i (x ∷ xs) ys =
    let e : i + suc (length xs) ≡ suc i + length xs = omega arith in
    rw e (ground (arith, numbered-append (suc i) xs ys))

take_nil : {A : Type 0} (b : ℕ) → take {A = A} b [] ≡ []
take_nil zero = refl
take_nil (suc b) = refl

take-add : {A : Type 0} (a b : ℕ) (xs : List A) → take (a + b) xs ≡ take a xs ++ take b (drop a xs)
take-add zero b xs = ap (λ (n : ℕ). take n xs) (omega arith)
take-add (suc a) b [] = rw suc-add (sym (take_nil b))
take-add (suc a) b (x ∷ xs) = rw suc-add (ap (◌∷◌ x) (take-add a b xs))

drop-drop : {A : Type 0} (a i : ℕ) (xs : List A) → drop a (drop i xs) ≡ drop (i + a) xs
drop-drop a zero xs = ap (λ (n : ℕ). drop n xs) (omega arith)
drop-drop zero (suc i) [] = rw suc-add refl
drop-drop (suc a) (suc i) [] = rw suc-add refl
drop-drop a (suc i) (x ∷ xs) = rw suc-add (drop-drop a i xs)

-- The statements of a plan from index `i` up to index `j`, without the empty ones.
abbrev pub range : List Statement → ℕ → ℕ → List (ℕ × Text)
range xs i j = numbered i (take (j - i) (drop i xs))

pub range-append :
    (xs : List Statement) (i j k : ℕ)
    → i ≤ j
    → j ≤ k
    → j ≤ length xs
    → range xs i j ++ range xs j k ≡ range xs i k
range-append xs i j k h g m =
    ap (λ (n : ℕ). front ++ numbered n (take (k - j) (drop j xs))) (sym here)
    ∙ ap (λ (n : ℕ). front ++ numbered (i + size) (take (k - j) (drop n xs))) (sym there)
    ∙ ap (λ ys. front ++ numbered (i + size) (take (k - j) ys)) (sym (drop-drop (j - i) i xs))
    ∙ sym (numbered-append i (take (j - i) (drop i xs)) (take (k - j) (drop (j - i) (drop i xs))))
    ∙ ap (numbered i) (sym (take-add (j - i) (k - j) (drop i xs)))
    ∙ ap (λ (n : ℕ). numbered i (take n (drop i xs))) (omega arith)
  where
    front : List (ℕ × Text)
    front = range xs i j

    size : ℕ
    size = length (take (j - i) (drop i xs))

    here : i + size ≡ j
    here = omega (arith, length-take (j - i) (drop i xs), length-drop i xs)

    there : i + (j - i) ≡ j
    there = omega arith
