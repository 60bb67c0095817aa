-- ===== src/Binlog/Files/Ordered.antt =====
-- Files of whole transactions in the order of their commit times, for the scans of
-- internal/binlog/engine.go: what lies past the end of a time range.
use mysql_pitr.Base.{
  ℕ, ◌≡◌, ◌≤◌, refl, sym, ap, ◌∙◌, inl, inr, Bool, true, false, List, [], ◌∷◌, ◌++◌, none, Option,
  some, ltb, ◌&&◌, All, All-append, Option-cases, append_assoc, arith,
}
use mysql_pitr.Base.Text.{Text}
use mysql_pitr.Base.Int.{ℤ}
use mysql_pitr.Binlog.Types.{TimeRange, Transaction, Filter, RowChange}
use mysql_pitr.Binlog.Library.{Library}
use mysql_pitr.Binlog.Filter.{matches_filter, in_time_range}
use mysql_pitr.Binlog.Engine.{Event, event_time}
use mysql_pitr.Binlog.Engine.Segments.{
  Segment, Change, inserts, updates, deletes, change_events, changes_events, segment_events,
  segments_events, transaction_of, kept, kept_all,
}
use mysql_pitr.Binlog.Files.{File, past_end_time}

-- The transactions of one file.
pub record Log : Type 0 where
  pub path : Text
  pub base : Text
  pub segments : List Segment

-- The file of the transactions, which opens, and is read to its end.
abbrev pub file_of : Log → File
file_of l = record {
  path = l.path;
  base = l.base;
  ctx_errs = [];
  open_err = none;
  events = segments_events l.segments;
  end_err = none;
}

abbrev pub all_segments : List Log → List Segment
all_segments [] = []
all_segments (l ∷ logs) = l.segments ++ all_segments logs

-- The commit times do not go back, and do not start before `t`.
abbrev pub IsOrdered : ℕ → List Segment → Type 0
IsOrdered t [] = Unit
IsOrdered t (g ∷ gs) = (t ≤ g.timestamp) × IsOrdered g.timestamp gs

IsOrdered-weaken : (t u : ℕ) (gs : List Segment) → t ≤ u → IsOrdered u gs → IsOrdered t gs
IsOrdered-weaken t u [] h o = tt
IsOrdered-weaken t u (g ∷ gs) h (k, o) = (omega arith, o)

pub IsOrdered-left : (t : ℕ) (gs hs : List Segment) → IsOrdered t (gs ++ hs) → IsOrdered t gs
IsOrdered-left t [] hs o = tt
IsOrdered-left t (g ∷ gs) hs (k, o) = (k, IsOrdered-left g.timestamp gs hs o)

pub IsOrdered-right : (t : ℕ) (gs hs : List Segment) → IsOrdered t (gs ++ hs) → IsOrdered t hs
IsOrdered-right t [] hs o = o
IsOrdered-right t (g ∷ gs) hs (k, o) =
    IsOrdered-weaken t g.timestamp hs k (IsOrdered-right g.timestamp gs hs o)

-- All events of a transaction have its time.
change_events-timed : (ts : ℕ) (c : Change) → All (λ ev. ev.timestamp ≡ ts) (change_events ts c)
change_events-timed ts (inserts id tm images) = (refl, (refl, tt))
change_events-timed ts (updates id tm images) = (refl, (refl, tt))
change_events-timed ts (deletes id tm images) = (refl, (refl, tt))

changes_events-timed :
    (ts : ℕ) (cs : List Change) → All (λ ev. ev.timestamp ≡ ts) (changes_events ts cs)
changes_events-timed ts [] = tt
changes_events-timed ts (c ∷ cs) =
    All-append (λ (ev : Event). ev.timestamp ≡ ts) (change_events ts c) (changes_events ts cs)
      (change_events-timed ts c) (changes_events-timed ts cs)

pub segment_events-timed : (g : Segment) → All (λ ev. ev.timestamp ≡ g.timestamp) (segment_events g)
segment_events-timed g = (
  refl,
  (
    refl,
    All-append (λ (ev : Event). ev.timestamp ≡ g.timestamp) (changes_events g.timestamp g.changes) _
        (changes_events-timed g.timestamp g.changes) (refl, tt),
  ),
)

-- Whether an event of the time ends the scan of a range.
abbrev pub is_past : Option TimeRange → ℕ → Bool
is_past none ts = false
is_past (some r) ts = ltb 0 ts && ltb r.end (event_time ts)

is_past-later : (r : Option TimeRange) (t u : ℕ) → t ≤ u → is_past r t ≡ true → is_past r u ≡ true
is_past-later none t u h p = cc
is_past-later (some r) t u h p = ground arith

is_past-outside :
    {G : Type 0} (lib : Library G) (r : Option TimeRange) (ts : ℕ)
    → is_past r ts ≡ true
    → in_time_range lib r (event_time ts) ≡ false
is_past-outside lib none ts p = cc
is_past-outside lib (some r) ts p = ground arith

module _ {G : Type 0} (lib : Library G) (max_rows : ℤ) (f : Filter G) where
  pub past_end_time-is_past :
      (ev : Event) → past_end_time lib max_rows f ev ≡ is_past f.time_range ev.timestamp
  unfolding past_end_time
  past_end_time-is_past ev = elim (Option-cases f.time_range) [
    | inl e ↦ rw e refl
    | inr (r, e) ↦ rw e refl
  ]

  -- A transaction past the end of the range is not sent.
  kept_late :
      (tx : Transaction) (ts : ℕ) (rows : List RowChange)
      → tx.commit_time ≡ event_time ts
      → is_past f.time_range ts ≡ true
      → kept lib max_rows f tx rows ≡ []
  unfolding matches_filter
  kept_late tx ts [] e p = refl
  kept_late tx ts (r ∷ rs) e p = rw e (rw (is_past-outside lib f.time_range ts p) refl)

  pub kept_all_late :
      (t : ℕ) (gs : List Segment)
      → is_past f.time_range t ≡ true
      → IsOrdered t gs
      → kept_all lib max_rows f gs ≡ []
  unfolding transaction_of
  kept_all_late t [] p o = refl
  kept_all_late t (g ∷ gs) p (h, o) =
      let q = is_past-later f.time_range t g.timestamp h p in
      let tx = transaction_of lib max_rows f g in
      ap (λ xs. xs ++ kept_all lib max_rows f gs) (kept_late tx g.timestamp tx.statements refl q)
      ∙ kept_all_late g.timestamp gs q o

  pub kept_all-append :
      (gs hs : List Segment)
      → kept_all lib max_rows f (gs ++ hs)
        ≡ kept_all lib max_rows f gs ++ kept_all lib max_rows f hs
  kept_all-append [] hs = refl
  kept_all-append (g ∷ gs) hs =
      let tx = transaction_of lib max_rows f g in
      ap (λ xs. kept lib max_rows f tx tx.statements ++ xs) (kept_all-append gs hs)
      ∙ sym (
          append_assoc (kept lib max_rows f tx tx.statements) (kept_all lib max_rows f gs)
            (kept_all lib max_rows f hs))
