-- ===== src/Pitr/Calls/Guarantee.antt =====
-- What a program of the handlers guarantees of every state that it starts from, for relations
-- between the states before and behind it.
use mysql_pitr.Base.{Bool, true, false, if◌then◌else◌, Option, none, some}
use mysql_pitr.Base.Text.{Text}
use mysql_pitr.Base.Result.{Result, ok, err}
use mysql_pitr.Pitr.Calls.{
  HandlerState, Handling, Answer, stop, next, after, ◌>>=◌, require, value_of, value_at, pure,
  end_with, asks,
}

-- A relation that holds of no change, and of one change after another.
pub record IsPreorder {G : Type 0} (Rel : HandlerState G → HandlerState G → Type 0) : Type 0 where
  pub reflexive : (s : HandlerState G) → Rel s s
  pub transitive : (r s t : HandlerState G) → Rel r s → Rel s t → Rel r t

unfoldable pub Guarantees :
    {G R A : Type 0} → (HandlerState G → HandlerState G → Type 0) → Handling G R A → Type 0
Guarantees {G} Rel m = (s : HandlerState G) → Rel s (m s).1

module _ {G : Type 0} {Rel : HandlerState G → HandlerState G → Type 0} (po : IsPreorder Rel) where
  after-Guarantees :
      {R A B : Type 0} (k : A → Handling G R B) (s : HandlerState G)
      (r : Answer R A × HandlerState G)
      → Rel s r.1
      → ((a : A) → Guarantees Rel (k a))
      → Rel s (after k r).1
  unfolding Guarantees
  after-Guarantees k s (stop r, t) h hk = h
  after-Guarantees k s (next a, t) h hk = po.transitive s t (k a t).1 h (hk a t)

  pub bind-Guarantees :
      {R A B : Type 0} (m : Handling G R A) (k : A → Handling G R B)
      → Guarantees Rel m
      → ((a : A) → Guarantees Rel (k a))
      → Guarantees Rel (m >>= k)
  unfolding Guarantees ◌>>=◌
  bind-Guarantees m k hm hk s = after-Guarantees k s (m s) (hm s) hk

  pub pure-Guarantees : (R : Type 0) {A : Type 0} (a : A) → Guarantees Rel (pure {R = R} a)
  unfolding Guarantees pure
  pure-Guarantees R a s = po.reflexive s

  pub end_with-Guarantees : {R : Type 0} (A : Type 0) (r : R) → Guarantees Rel (end_with {A = A} r)
  unfolding Guarantees end_with
  end_with-Guarantees A r s = po.reflexive s

  pub asks-Guarantees :
      (R : Type 0) {A : Type 0} (f : HandlerState G → A) → Guarantees Rel (asks {R = R} f)
  unfolding Guarantees asks
  asks-Guarantees R f s = po.reflexive s

  pub require-Guarantees : {R : Type 0} (b : Bool) (r : R) → Guarantees Rel (require b r)
  unfolding Guarantees require
  require-Guarantees true r s = po.reflexive s
  require-Guarantees false r s = po.reflexive s

  pub value_of-Guarantees :
      {R A : Type 0} (v : Result A) (f : Text → R) → Guarantees Rel (value_of v f)
  unfolding Guarantees value_of
  value_of-Guarantees (ok a) f s = po.reflexive s
  value_of-Guarantees (err e) f s = po.reflexive s

  pub value_at-Guarantees : {R A : Type 0} (v : Option A) (r : R) → Guarantees Rel (value_at v r)
  unfolding Guarantees value_at
  value_at-Guarantees (some a) r s = po.reflexive s
  value_at-Guarantees none r s = po.reflexive s

  pub if-Guarantees :
      {R A : Type 0} (b : Bool) (m n : Handling G R A)
      → Guarantees Rel m
      → Guarantees Rel n
      → Guarantees Rel (if b then m else n)
  if-Guarantees true m n h k = h
  if-Guarantees false m n h k = k

pub ruleset guarantee_rules = (
  bind-Guarantees, pure-Guarantees, end_with-Guarantees, asks-Guarantees, require-Guarantees,
  value_of-Guarantees, value_at-Guarantees, if-Guarantees,
)
