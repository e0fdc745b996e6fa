-- ===== src/Engine/Trust.antt =====
-- internal/engine/worker.go: an engine may advance only on tips that were derived while it held the
-- lease.
use rule_110_arcade.Base.{
  ℕ, ◌≤◌, ◌≡◌, refl, ap, ◌∙◌, arith, Bool, true, false, not, Option, none, some, List, [], ◌∷◌,
  get_elem?, ltb, leb, if◌then◌else◌, Bool-cases, inl, inr,
}
use rule_110_arcade.Engine.Worker.{Engine, set_leader, gates, sub64}
use rule_110_arcade.Engine.Leadership.{
  Derived, apply_positions, rederive_if_needed, Renewal, renew, renew_all,
}

abbrev pub is_some {ℓ} : {A : Type ℓ} → Option A → Bool
is_some none = false
is_some (some a) = true

-- Since the last renewal that failed, or since the start, some renewal derived the tips. The last
-- renewal comes first.
abbrev pub derived_since : List Renewal → Bool
derived_since [] = false
derived_since (r ∷ earlier) =
    let before = derived_since earlier in
    if r.held then (if is_some r.derived then true else before) else false

abbrev pub may_advance : Engine → Bool
may_advance e = if e.leader then not e.needs_rederive else false

regained :
    (leader needs : Bool)
    → not (if not leader then true else needs) ≡ (if leader then not needs else false)
regained true needs = refl
regained false needs = refl

renew-may_advance :
    (e : Engine) (held : Bool) (d : Option (List Derived))
    → may_advance (renew e (record { held = held; derived = d }))
      ≡ (if held then (if is_some d then true else may_advance e) else false)
unfolding renew set_leader rederive_if_needed apply_positions
renew-may_advance e false d = refl
renew-may_advance e true none = regained e.leader e.needs_rederive
renew-may_advance e true (some ps) =
    elim (Bool-cases (if not e.leader then true else e.needs_rederive)) [
      | inl h ↦ rw h refl
      | inr h ↦ rw h cc
    ]

-- From an engine that does not lead, after any renewals: it may advance exactly if a renewal derived the
-- tips and the lease has been held in every renewal since.
pub renew_all-may_advance :
    (e : Engine) (renewals : List Renewal)
    → e.leader ≡ false
    → may_advance (renew_all e renewals) ≡ derived_since renewals
unfolding renew_all
renew_all-may_advance e [] h = rw h refl
renew_all-may_advance e (r ∷ earlier) h =
    renew-may_advance (renew_all e earlier) r.held r.derived
    ∙ rw (renew_all-may_advance e earlier h) refl

no_depth : (a : ℕ) → sub64 a a ≡ 0
no_depth a = ground arith

-- A cell whose tip is mined and seen is not held back.
open_gates :
    (tip deep unseen : ℕ) (b : Bool)
    → (if (if ltb 0 deep then leb deep (sub64 tip tip) else false)
        then false
        else if (if ltb 0 unseen
            then (if ltb tip tip then leb unseen (sub64 tip tip) else false)
            else false)
        then false
        else b)
      ≡ b
open_gates tip deep unseen b = rw (no_depth tip) (ground arith)

gates-open :
    (e : Engine) (cell tip : ℕ)
    → e.last_mined cell ≡ tip
    → e.last_seen cell ≡ tip
    → gates e cell tip ≡ ltb tip e.target
unfolding gates
gates-open e cell tip h k =
    rw (h, k) (open_gates tip e.max_unconfirmed_depth e.max_unseen_depth (ltb tip e.target))

-- Fresh tips hold no cell back: on positions that were just installed the gates of a cell are its target
-- alone, and the target is not below the frontier.
pub apply_positions-gates :
    (e : Engine) (ps : List Derived) (cell : ℕ) (p : Derived)
    → get_elem? ps cell ≡ some p
    → (gates (apply_positions e ps) cell p.tip.generation
        ≡ ltb p.tip.generation (apply_positions e ps).target)
      × ((apply_positions e ps).generation ≤ (apply_positions e ps).target)
unfolding apply_positions
apply_positions-gates e ps cell p h = (
  gates-open (apply_positions e ps) cell p.tip.generation
      (ap (λ (o : Option Derived). elim o [ none ↦ e.last_mined cell | some q ↦ q.tip.generation ])
        h)
      (ap (λ (o : Option Derived). elim o [ none ↦ e.last_seen cell | some q ↦ q.tip.generation ])
        h),
  ground arith,
)
