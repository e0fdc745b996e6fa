-- ===== src/Engine/Rows/Computed.antt =====
-- internal/engine/derive.go: the rows that a derivation recomputes, and what it takes from them.
use rule_110_arcade.Base.{
  ℕ, zero, suc, ◌≡◌, refl, sym, ◌∙◌, Bool, Option, none, some, put, ◌==◌, if_known, ==_iff,
  bind-some,
}
use mathlib.Core.Option.{some-injective}
use rule_110_arcade.Ca.{Row, Rule, step as next_row}
use rule_110_arcade.Chain.Walk.{later_row}
use rule_110_arcade.Engine.Rows.{keep_row, compute_loop, compute_rows}

-- Rows that are all the rule's.
abbrev pub AreRows : Rule → Row → (ℕ → Option Row) → Type 0
AreRows rule seed out = (x : ℕ) (r : Row) → out x ≡ some r → later_row rule x seed ≡ some r

pub later_row-suc :
    (rule : Rule) (j : ℕ) (row mid next : Row)
    → later_row rule j row ≡ some mid
    → next_row rule mid ≡ some next
    → later_row rule (suc j) row ≡ some next
later_row-suc rule zero row mid next e f = rw (some-injective row mid e, f) refl
later_row-suc rule (suc j) row mid next e f =
    let (a, p, q) = bind-some (next_row rule row) _ e in
    rw (p) (later_row-suc rule j a mid next q f)

keep_row-AreRows :
    (rule : Rule) (seed row : Row) (wanted : ℕ → Bool) (g : ℕ) (out : ℕ → Option Row)
    → later_row rule g seed ≡ some row
    → AreRows rule seed out
    → AreRows rule seed (keep_row wanted g row out)
keep_row-AreRows rule seed row wanted g out here all =
    if_known (AreRows rule seed) (wanted g) (put out g (some row)) out
      (λ w x r.
        if_known (λ (o : Option Row). o ≡ some r → later_row rule x seed ≡ some r) (x == g)
          (some row) (out x) (λ same e. rw ((==_iff x g).0 same) (here ∙ e)) (λ other. all x r))
      (λ w. all)

compute_loop-AreRows :
    (rule : Rule) (seed : Row) (wanted : ℕ → Bool) (turns g : ℕ) (row : Row)
    (out rows : ℕ → Option Row)
    → later_row rule g seed ≡ some row
    → AreRows rule seed out
    → compute_loop rule wanted turns (suc g) row out ≡ some rows
    → AreRows rule seed rows
unfolding compute_loop
compute_loop-AreRows rule seed wanted zero g row out rows here all e =
    rw (sym (some-injective out rows e)) all
compute_loop-AreRows rule seed wanted (suc turns) g row out rows here all e =
    let (next, p, q) = bind-some (next_row rule row) _ e in
    let there = later_row-suc rule g seed row next here p in
    compute_loop-AreRows rule seed wanted turns (suc g) next (keep_row wanted (suc g) next out) rows
      there (keep_row-AreRows rule seed next wanted (suc g) out there all) q

pub compute_rows-AreRows :
    (rule : Rule) (seed : Row) (wanted : ℕ → Bool) (highest : ℕ) (rows : ℕ → Option Row)
    → compute_rows seed rule wanted highest ≡ some rows
    → AreRows rule seed rows
unfolding compute_rows
compute_rows-AreRows rule seed wanted highest rows e =
    compute_loop-AreRows rule seed wanted highest 0 seed (keep_row wanted 0 seed (λ g. none)) rows
      refl (keep_row-AreRows rule seed seed wanted 0 (λ g. none) refl (λ x r h. cc h)) e
