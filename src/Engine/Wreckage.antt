-- ===== src/Engine/Wreckage.antt =====
-- internal/engine/derive.go: the loop over the records above a tip, against the piles of failures and
-- attempts that stand there.
use rule_110_arcade.Base.{
  ℕ, ◌+◌, ◌≤◌, ◌<◌, ◌≡◌, ◌↔◌, refl, arith, Bool, true, false, Option, none, some, List, [], ◌∷◌,
  if◌then◌else◌, filter, length, All, leb, leb→le, Bool-cases, inl, inr,
}
use mathlib.Core.Option.{some-injective}
use native.Mathlib.Nat.{le_refl}
use rule_110_arcade.Base.Sort.{IsDesc}
use rule_110_arcade.History.{Status, attempting, failed, is_failed, is_attempting}
use rule_110_arcade.History.Tips.{Tip}
use rule_110_arcade.Engine.Derive.{
  Position, Wreck, no_wreck, max_wreckage, note_rejection, count_record, survey, note_failure,
  note_attempt, judge_shallow,
}

-- The records of one kind above the tip, newest first.
abbrev pub failures_above : ℕ → List Tip → List Tip
failures_above base rows =
    filter (λ r. if leb r.generation base then false else is_failed r.status) rows

abbrev pub attempts_above : ℕ → List Tip → List Tip
attempts_above base rows =
    filter (λ r. if leb r.generation base then false else is_attempting r.status) rows

abbrev pub last_or : Option Tip → List Tip → Option Tip
last_or d [] = d
last_or d (r ∷ rs) = last_or (some r) rs

filter-none :
    (p : Tip → Bool) (base : ℕ) (rows : List Tip)
    → All (λ (r : Tip). r.generation ≤ base) rows
    → filter (λ r. if leb r.generation base then false else p r) rows ≡ []
filter-none p base [] h = refl
filter-none p base (r ∷ rs) h = ground (arith, filter-none p base rs h.1)

All-weaken :
    (a b : ℕ) (rows : List Tip)
    → a ≤ b
    → All (λ (r : Tip). r.generation ≤ a) rows
    → All (λ (r : Tip). r.generation ≤ b) rows
All-weaken a b [] e h = tt
All-weaken a b (r ∷ rs) e h = (omega arith, All-weaken a b rs e h.1)

-- What the loop has found at its end.
surveyed : Wreck → List Tip → List Tip → Wreck
surveyed w fs as' = record {
  failure = last_or w.failure fs;
  failures = w.failures + length fs;
  attempt = last_or w.attempt as';
  attempts = w.attempts + length as';
}

surveyed-count_record :
    (st : Status) (r : Tip) (w : Wreck) (fs as' : List Tip)
    → surveyed (count_record st r w) fs as'
      ≡ surveyed w (if is_failed st then r ∷ fs else fs) (if is_attempting st then r ∷ as' else as')
unfolding surveyed count_record
surveyed-count_record failed r w fs as' = ground arith
surveyed-count_record attempting r w fs as' = ground arith
surveyed-count_record _ r w fs as' = refl

-- The loop stops at the tip, and below it there is nothing to count.
survey_lem :
    (base : ℕ) (rows : List Tip) (w : Wreck)
    → IsDesc (λ (r : Tip). r.generation) rows
    → survey base rows w ≡ surveyed w (failures_above base rows) (attempts_above base rows)
unfolding survey surveyed count_record
survey_lem base [] w h = ground arith
survey_lem base (r ∷ rs) w h = elim (Bool-cases (leb r.generation base)) [
  | inl e ↦
      let low = All-weaken r.generation base rs (leb→le _ _ e) h.0 in
      rw
        (
          e,
          filter-none (λ r. is_failed r.status) base rs low,
          filter-none (λ r. is_attempting r.status) base rs low,
        )
        (ground arith)
  | inr e ↦
      rw (e, survey_lem base rs (count_record r.status r w) h.1)
        (surveyed-count_record r.status r w (failures_above base rs) (attempts_above base rs))
]

last_or-some : (t : Tip) (ts : List Tip) → (u : Tip) × (last_or (some t) ts ≡ some u)
last_or-some t [] = (t, refl)
last_or-some t (u ∷ us) = last_or-some u us

-- The verdict from the two piles.
pub judged : ℕ → List Tip → List Tip → Position
judged base fs as' =
    let w = surveyed no_wreck fs as' in
    note_attempt base w w.attempt (note_failure base w w.failure)

pub judge_shallow-judged :
    (rows : List Tip) (base : Tip)
    → IsDesc (λ (r : Tip). r.generation) rows
    → judge_shallow rows base
      ≡ judged base.generation
          (failures_above base.generation rows)
          (attempts_above base.generation rows)
unfolding judge_shallow judged
judge_shallow-judged rows base h = rw (survey_lem base.generation rows no_wreck h)

module _ (base : ℕ) where
  pub judged_flags :
      (fs as' : List Tip)
      → (((judged base fs as').halted ≡ true) ↔ (0 < length fs + length as'))
        × (((judged base fs as').rejected ≡ true) ↔ ((0 < length fs) × (length fs ≤ max_wreckage)))
        × (((judged base fs as').unknown ≡ true) ↔ ((0 < length as') × (length fs ≤ max_wreckage)))
  unfolding judged surveyed note_attempt note_failure note_rejection
  judged_flags [] [] = ground arith
  judged_flags [] (a ∷ as') = rw (last_or-some a as').1 (ground arith)
  judged_flags (f ∷ fs) [] = rw (last_or-some f fs).1 (ground arith)
  judged_flags (f ∷ fs) (a ∷ as') =
      rw ((last_or-some f fs).1, (last_or-some a as').1) (ground arith)

  judged_rejection :
      (fs as' : List Tip) (t : Tip)
      → last_or none fs ≡ some t
      → (judged base fs as').rejected ≡ true
      → ((judged base fs as').rejected_at ≡ t.generation)
        × ((judged base fs as').rejection_txid ≡ t.txid)
        × ((judged base fs as').rejection_err ≡ t.err)
  unfolding judged surveyed note_attempt note_failure note_rejection
  judged_rejection fs [] t e h =
      let h' = rw (e, judged, surveyed, note_attempt) at h in rw e (ground arith)
  judged_rejection fs (a ∷ as') t e h =
      let newest = (last_or-some a as').1 in
      let h' = rw (e, newest) at h in rw (e, newest) (ground arith)

last_or-below :
    (d : Tip) (ts : List Tip) {t : Tip}
    → IsDesc (λ (r : Tip). r.generation) ts
    → All (λ (r : Tip). r.generation ≤ d.generation) ts
    → last_or (some d) ts ≡ some t
    → All (λ (r : Tip). t.generation ≤ r.generation) ts × (t.generation ≤ d.generation)
last_or-below d [] {t} h b e = (tt, rw (some-injective d t e) (le_refl t.generation))
last_or-below d (u ∷ us) h b e =
    let rest = last_or-below u us h.1 h.0 e in ((rest.1, rest.0), omega (arith, b.0, rest.1))

-- The last of a falling list is its lowest.
oldest :
    (ts : List Tip) {t : Tip}
    → IsDesc (λ (r : Tip). r.generation) ts
    → last_or none ts ≡ some t
    → All (λ (r : Tip). t.generation ≤ r.generation) ts
oldest [] h e = tt
oldest (u ∷ us) h e = let rest = last_or-below u us h.1 h.0 e in (rest.1, rest.0)

last_or-none : (ts : List Tip) → 0 < length ts → (t : Tip) × (last_or none ts ≡ some t)
last_or-none [] h = elim h [ ]
last_or-none (t ∷ ts) h = last_or-some t ts

-- What a repair is offered, when it is offered anything.
pub judged_oldest :
    (base : ℕ) (fs as' : List Tip)
    → IsDesc (λ (r : Tip). r.generation) fs
    → (judged base fs as').rejected ≡ true
    → (t : Tip) × (last_or none fs ≡ some t)
      × ((judged base fs as').rejected_at ≡ t.generation)
      × ((judged base fs as').rejection_txid ≡ t.txid)
      × ((judged base fs as').rejection_err ≡ t.err)
      × All (λ (u : Tip). t.generation ≤ u.generation) fs
judged_oldest base fs as' d h =
    let (t, e) = last_or-none fs ((judged_flags base fs as').1.0 h).0 in
    let r = judged_rejection base fs as' t e h in (t, e, r.0, r.1, r.2, oldest fs d e)
