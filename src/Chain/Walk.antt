-- ===== src/Chain/Walk.antt =====
-- internal/chain/recover.go: every step that a recovery adopts is a verified successor of the one before
-- it, so the position it ends at is the rule's.
use rule_110_arcade.Base.{
  ℕ, zero, suc, ◌+◌, ◌-◌, ◌≤◌, ◌<◌, ◌≡◌, refl, sym, ap, ◌∙◌, arith, false, not, Option, some, ◌>>=◌,
  List, [], ◌∷◌, ◌++◌, length, ltb, leb, ◌==◌, if◌then◌else◌, u64, is_empty, if_known, option_known,
  leb-false→lt,
}
use mathlib.Core.Option.{some-injective}
use rule_110_arcade.Ca.{Row, Rule, step as next_row}
use rule_110_arcade.Cellscript.{Compiled}
use rule_110_arcade.Chain.{CellChain, Bytes, Sdk, CellAction, Ledger, tip_row}
use rule_110_arcade.Chain.Tips.{verify_successor}
use rule_110_arcade.Chain.Successor.{IsSuccessor, verify_successor_lem}
use rule_110_arcade.Chain.Recover.{
  Verdict, verdict_halt, verdict_resume, verdict_adopt, Recovery, halt, resume, by_gen,
  agrees_with_wallet, resume_after, finish_walk, walk_loop, walk_forward, newest_cell_action,
  judge_actions, recover_cell,
}

-- The row `j` generations on.
abbrev pub later_row : Rule → ℕ → Row → Option Row
later_row rule zero row = some row
later_row rule (suc j) row = next_row rule row >>= later_row rule j

adopt_case :
    (A B C : Type 0) (v : Verdict)
    → v ≡ verdict_adopt
    → (elim v as (λ x. Type 0) [ verdict_halt ↦ A | verdict_resume ↦ B | verdict_adopt ↦ C ])
    → C
adopt_case A B C verdict_halt e x = cc
adopt_case A B C verdict_resume e x = cc
adopt_case A B C verdict_adopt e x = x

module _ (k : Sdk) (l : Ledger) (c : Compiled) (n : ℕ) (rule : Rule) where
  -- `steps` leads from `tip` to `last`, each a verified successor of the one before.
  pub data PathOf : CellChain → List CellChain → CellChain → Type 0 where
    stay : (tip : CellChain) → PathOf tip [] tip
    move :
        (tip next : CellChain) (raw : Bytes) (steps : List CellChain) (last : CellChain)
        → IsSuccessor k c rule n tip raw next
        → PathOf next steps last
        → PathOf tip (next ∷ steps) last

  PathOf-snoc :
      (tip : CellChain) (steps : List CellChain) (last next : CellChain) (raw : Bytes)
      → PathOf tip steps last
      → IsSuccessor k c rule n last raw next
      → PathOf tip (steps ++ (next ∷ [])) next
  PathOf-snoc tip steps last next raw (stay _) s = move tip next raw [] next s (stay next)
  PathOf-snoc tip steps last next raw (move _ mid raw' rest _ m p) s =
      move tip mid raw' (rest ++ (next ∷ [])) next m (PathOf-snoc mid rest last next raw p s)

  PathOf-nil : (tip last : CellChain) → PathOf tip [] last → last ≡ tip
  PathOf-nil tip last (stay _) = refl

  -- What a verdict on the cell at `tip` promises, of at most `limit` steps.
  abbrev pub IsSound : CellChain → ℕ → Recovery → Type 0
  IsSound tip limit r = (length r.steps ≤ limit) × (elim r.verdict [
    | verdict_halt ↦ (last : CellChain) × PathOf tip r.steps last
    | verdict_resume ↦ (r.tip ≡ tip) × (r.steps ≡ [])
    | verdict_adopt ↦ PathOf tip r.steps r.tip × (0 < length r.steps)
  ])

  length-snoc :
      (steps : List CellChain) (next : CellChain)
      → length (steps ++ (next ∷ [])) ≡ suc (length steps)
  length-snoc [] next = refl
  length-snoc (s ∷ steps) next = ap suc (length-snoc steps next)

  finish_walk-IsSound :
      (tip current : CellChain) (limit : ℕ) (steps : List CellChain)
      → length steps ≤ limit
      → PathOf tip steps current
      → IsSound tip limit (finish_walk current steps)
  unfolding finish_walk
  finish_walk-IsSound tip current limit [] b p = (b, (tip, stay tip))
  finish_walk-IsSound tip current limit (s ∷ steps) b p = (b, (p, omega arith))

  resume_after-IsSound :
      (tip current : CellChain) (limit : ℕ) (steps : List CellChain)
      → length steps ≤ limit
      → PathOf tip steps current
      → IsSound tip limit (resume_after current steps)
  unfolding resume_after
  resume_after-IsSound tip current limit [] b p = (b, (PathOf-nil tip current p, refl))
  resume_after-IsSound tip current limit (s ∷ steps) b p = (b, (p, omega arith))

  walk_loop-IsSound :
      (actions : List CellAction) (limit turns gen : ℕ) (tip current : CellChain)
      (steps : List CellChain)
      → length steps ≤ limit
      → PathOf tip steps current
      → IsSound tip limit (walk_loop k l c n rule actions limit turns gen current steps)
  unfolding walk_loop
  walk_loop-IsSound actions limit zero gen tip current steps b p =
      finish_walk-IsSound tip current limit steps b p
  walk_loop-IsSound actions limit (suc turns) gen tip current steps b p =
      let P = IsSound tip limit in
      let stop : IsSound tip limit (halt steps) = (b, (current, p)) in
      if_known P (leb limit (length steps)) _ _ (λ h. stop)
        λ room. option_known P (by_gen actions gen) _ _ stop λ a e.
          if_known P (is_empty a.txid) _ _ (λ h. resume_after-IsSound tip current limit steps b p)
            λ h.
              if_known P a.is_failed _ _ (λ f. stop)
                λ f. option_known P (l.raw_tx a.txid) _ _ stop λ raw r.
                  option_known P (verify_successor k c current n rule a.txid raw) _ _ stop λ next v.
                    if_known P (agrees_with_wallet k c a next n) _ _
                      (λ w.
                        walk_loop-IsSound actions limit turns (suc gen) tip next
                          (steps ++ (next ∷ []))
                          (omega
                            (arith, length-snoc steps next, leb-false→lt limit (length steps) room))
                          (PathOf-snoc tip steps current next raw p
                            (verify_successor_lem k c current n rule a.txid raw next v).1))
                      (λ w. stop)

  resume-IsSound : (tip : CellChain) (limit : ℕ) → IsSound tip limit (resume tip)
  resume-IsSound tip limit = (omega arith, (refl, refl))

  judge_actions-IsSound :
      (tip : CellChain) (attempted limit : ℕ) (actions : List CellAction) (total : ℕ)
      → IsSound tip limit (judge_actions k l c n rule tip attempted limit actions total)
  unfolding judge_actions walk_forward
  judge_actions-IsSound tip attempted limit actions total =
      let P = IsSound tip limit in
      let stop : IsSound tip limit (halt []) = (omega arith, (tip, stay tip)) in
      let again = resume-IsSound tip limit in
      if_known P (total == 0) _ _
        (λ h. if_known P (ltb 0 tip.generation) _ _ (λ h. stop) (λ h. again))
        λ h. option_known P (newest_cell_action actions) _ _ stop λ newest e.
          if_known P (ltb newest.generation attempted) _ _ (λ h. again)
            λ h.
              if_known P (if newest.generation == attempted then is_empty newest.txid else false) _
                _ (λ h. again)
                (λ h.
                  walk_loop-IsSound actions limit (newest.generation - tip.generation)
                    (tip.generation + 1) tip tip [] (omega arith) (stay tip))

  -- Whatever the wallet answers, a recovery halts, resumes at the recorded tip with no steps, or
  -- adopts at least one step and ends at the last. The steps, a halt's included, are at most the
  -- limit (8, when the limit given is 0), and each is a verified successor of the one before it,
  -- from the recorded tip on.
  pub recover_cell-IsSound :
      (tip : CellChain) (attempted max_walk : ℕ)
      → IsSound tip
          (if max_walk == 0 then 8 else max_walk)
          (recover_cell k l c n rule tip attempted max_walk)
  unfolding recover_cell
  recover_cell-IsSound tip attempted max_walk =
      let limit = if max_walk == 0 then 8 else max_walk in
      let P = IsSound tip limit in
      let stop : IsSound tip limit (halt []) = (omega arith, (tip, stay tip)) in
      if_known P (not (attempted == u64 (tip.generation + 1))) _ _ (λ h. stop)
        λ h.
          option_known P (l.cell_actions tip.cell limit) _ _ stop
            λ (answer : List CellAction × ℕ) e.
              judge_actions-IsSound tip attempted limit answer.0 answer.1

  PathOf-end :
      (tip : CellChain) (steps : List CellChain) (last : CellChain) (row : Row)
      → PathOf tip steps last
      → tip_row tip n ≡ some row
      → (out : Row) × (later_row rule (length steps) row ≡ some out) × (tip_row last n ≡ some out)
  PathOf-end tip [] last row (stay _) h = (row, refl, h)
  PathOf-end tip (next ∷ steps) last row (move _ _ raw _ _ s p) h =
      let (out, e, f) = PathOf-end next steps last s.next p s.to_row in
      (out, rw (some-injective row s.row (sym h ∙ s.from_row), s.stepped) e, f)

  PathOf-row :
      (tip : CellChain) (steps : List CellChain) (last : CellChain)
      → PathOf tip steps last
      → 0 < length steps
      → (row : Row) × (tip_row tip n ≡ some row)
  PathOf-row tip [] last p h = absurd (omega arith)
  PathOf-row tip (next ∷ steps) last (move _ _ raw _ _ s p) h = (s.row, s.from_row)

  PathOf-kept :
      (tip : CellChain) (steps : List CellChain) (last : CellChain)
      → PathOf tip steps last
      → (last.cell ≡ tip.cell)
        × (last.satoshis ≡ tip.satoshis)
        × (u64 last.generation ≡ u64 (tip.generation + length steps))
  PathOf-kept tip [] last (stay _) = (refl, refl, omega arith)
  PathOf-kept tip (next ∷ steps) last (move _ _ raw _ _ s p) =
      let (a, b, g) = PathOf-kept next steps last p in
      (a ∙ s.same_cell, b ∙ s.same_value, omega (arith, g, s.one_on))

  IsSound-adopt :
      (tip : CellChain) (limit : ℕ) (r : Recovery)
      → IsSound tip limit r
      → r.verdict ≡ verdict_adopt
      → PathOf tip r.steps r.tip × (0 < length r.steps)
  IsSound-adopt tip limit r s e = adopt_case _ _ _ r.verdict e s.1

  -- A recovery that adopts ends at the position that the rule gives: the row is the recorded tip's row
  -- after as many steps of the automaton as there are steps, at least one, the generation is that much
  -- higher (on uint64), and the cell and its value are the tip's.
  pub recover_cell-adopt :
      (tip : CellChain) (attempted max_walk : ℕ)
      → let r = recover_cell k l c n rule tip attempted max_walk in
        r.verdict ≡ verdict_adopt
        → (row : Row) × (out : Row) × (tip_row tip n ≡ some row)
          × (later_row rule (length r.steps) row ≡ some out)
          × (tip_row r.tip n ≡ some out)
          × (0 < length r.steps)
          × (u64 r.tip.generation ≡ u64 (tip.generation + length r.steps))
          × (r.tip.cell ≡ tip.cell)
          × (r.tip.satoshis ≡ tip.satoshis)
  recover_cell-adopt tip attempted max_walk e =
      let r = recover_cell k l c n rule tip attempted max_walk in
      let (p, pos) = IsSound-adopt tip _ r (recover_cell-IsSound tip attempted max_walk) e in
      let (a, b, g) = PathOf-kept tip r.steps r.tip p in
      let (row, h) = PathOf-row tip r.steps r.tip p pos in
      let (out, i, j) = PathOf-end tip r.steps r.tip row p h in (row, out, h, i, j, pos, g, a, b)
