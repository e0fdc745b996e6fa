-- ===== src/Engine/Gates.antt =====
-- internal/engine/worker.go: when a cell may advance.
use rule_110_arcade.Base.{
  ℕ, zero, suc, ◌+◌, ◌-◌, ◌≤◌, ◌<◌, ◌≡◌, ◌↔◌, refl, ap, arith, Bool, true, false, not, some, ltb,
  leb, if◌then◌else◌, get_elem?, Bool-cases, inl, inr, ltb→lt, lt→ltb,
}
use rule_110_arcade.Chain.{CellChain}
use rule_110_arcade.Engine.Worker.{
  is_starved, Engine, sub64, gates, ready_at, turn_ready, turn_ready?, claim_probe,
  starvation_probe,
}

-- The depth gate on numbers below 2 ^ 63: the subtraction wraps around when the tip is below `mined`.
pub deep_gate :
    (tip mined limit : ℕ)
    → tip < 9223372036854775808
    → mined < 9223372036854775808
    → 0 < limit
    → limit < 9223372036854775808
    → (leb limit (sub64 tip mined) ≡ false) ↔ ((mined ≤ tip) × (tip < mined + limit))
deep_gate tip mined limit h k l m = (
  λ e. elim (Bool-cases (ltb tip mined)) [ inl a ↦ ground arith | inr a ↦ ground arith ],
  λ e. ground arith,
)

pub unseen_gate :
    (tip seen limit : ℕ)
    → tip < 9223372036854775808
    → 0 < limit
    → ((if ltb seen tip then leb limit (sub64 tip seen) else false) ≡ false) ↔ (tip < seen + limit)
unseen_gate tip seen limit h l = (λ e. ground arith, λ e. ground arith)

depth_limit :
    (tip mined limit : ℕ)
    → tip < 9223372036854775808
    → mined < 9223372036854775808
    → limit < 9223372036854775808
    → ((if ltb 0 limit then leb limit (sub64 tip mined) else false) ≡ false)
      ↔ (0 < limit → (mined ≤ tip) × (tip < mined + limit))
depth_limit tip mined zero h k m = (λ e p. ground arith, λ f. refl)
depth_limit tip mined (suc l) h k m =
    let pos : 0 < suc l = ground arith in
    let w = deep_gate tip mined (suc l) h k pos m in
    rw (lt→ltb 0 (suc l) pos) (λ e p. w.0 e, λ f. w.1 (f pos))

unseen_limit :
    (tip seen limit : ℕ)
    → tip < 9223372036854775808
    → ((if ltb 0 limit then (if ltb seen tip then leb limit (sub64 tip seen) else false) else false)
        ≡ false)
      ↔ (0 < limit → tip < seen + limit)
unseen_limit tip seen zero h = (λ e p. ground arith, λ f. refl)
unseen_limit tip seen (suc l) h =
    let pos : 0 < suc l = ground arith in
    let w = unseen_gate tip seen (suc l) h pos in
    rw (lt→ltb 0 (suc l) pos) (λ e p. w.0 e, λ f. w.1 (f pos))

three_gates :
    (a b c : Bool)
    → ((if a then false else if b then false else c) ≡ true)
      ↔ ((a ≡ false) × (b ≡ false) × (c ≡ true))
three_gates a b c = (λ e. ground arith, λ e. ground arith)

gates_iff :
    (e : Engine) (cell tip : ℕ)
    → tip < 9223372036854775808
    → e.last_mined cell < 9223372036854775808
    → e.max_unconfirmed_depth < 9223372036854775808
    → (gates e cell tip ≡ true) ↔ (
        (tip < e.target)
        × (0 < e.max_unseen_depth → tip < e.last_seen cell + e.max_unseen_depth)
        × (0 < e.max_unconfirmed_depth
            → (e.last_mined cell ≤ tip) × (tip < e.last_mined cell + e.max_unconfirmed_depth)))
unfolding gates
gates_iff e cell tip ht hm hd =
    let d = depth_limit tip (e.last_mined cell) e.max_unconfirmed_depth ht hm hd in
    let u = unseen_limit tip (e.last_seen cell) e.max_unseen_depth ht in
    let t = three_gates _ _ (ltb tip e.target) in
    (
      λ g. let (p, q, r) = t.0 g in (ltb→lt tip e.target r, u.0 q, d.0 p),
      λ (r, q, p). t.1 (d.1 p, u.1 q, lt→ltb tip e.target r),
    )

two_gates :
    (e : Engine) (l r b : Bool)
    → ◌≡◌ {A = Engine × Bool}
        (if not l then (e, false) else if r then (e, false) else (e, b))
        (e, if l then (if r then false else b) else false)
two_gates e true true b = refl
two_gates e true false b = refl
two_gates e false r b = refl

owned :
    (l r b : Bool)
    → ((if l then (if r then false else b) else false) ≡ true)
      ↔ ((l ≡ true) × (r ≡ false) × (b ≡ true))
owned l r b = (λ e. ground arith, λ e. ground arith)

old : (a b : ℕ) → a + 15000 ≤ b → ltb (b - a) starvation_probe ≡ false
old a b h = ground arith

recent : (a b : ℕ) → b < a + 15000 → ltb (b - a) starvation_probe ≡ true
recent a b h = ground arith

-- A cell whose engine is not starved takes its turn exactly when the engine holds the lease, has
-- derived the tips under it, and the cell's tip is below the target, less than the acceptance limit
-- above its last accepted generation, and neither below its last mined generation nor the depth
-- limit above it. A limit of 0 is no limit. The query changes nothing. The tip, the last mined
-- generation and the depth limit are below 2 ^ 63.
pub turn_ready_lem :
    (e : Engine) (now cell : ℕ) (c : CellChain)
    → get_elem? e.tips cell ≡ some c
    → is_starved e.mode ≡ false
    → c.generation < 9223372036854775808
    → e.last_mined cell < 9223372036854775808
    → e.max_unconfirmed_depth < 9223372036854775808
    → (ready : Bool) × (turn_ready e now cell ≡ some (e, ready))
      × ((ready ≡ true) ↔ (
          (e.leader ≡ true)
          × (e.needs_rederive ≡ false)
          × (c.generation < e.target)
          × (0 < e.max_unseen_depth → c.generation < e.last_seen cell + e.max_unseen_depth)
          × (0 < e.max_unconfirmed_depth
              → (e.last_mined cell ≤ c.generation)
                × (c.generation < e.last_mined cell + e.max_unconfirmed_depth))))
unfolding turn_ready turn_ready? ready_at
turn_ready_lem e now cell c h s ht hm hd =
    rw (h, s)
      (
        (if e.leader
            then (if e.needs_rederive then false else gates e cell c.generation)
            else false),
        ap (λ (x : Engine × Bool). some x) (two_gates e e.leader e.needs_rederive _),
        (
          λ g.
              let (l, r, q) = (owned e.leader e.needs_rederive _).0 g in
              let (t, u, d) = (gates_iff e cell c.generation ht hm hd).0 q in (l, r, t, u, d),
          λ (l, r, t, u, d).
              (owned e.leader e.needs_rederive _).1
                (l, r, (gates_iff e cell c.generation ht hm hd).1 (t, u, d)),
        ),
      )

-- In a starved engine that holds the lease and has derived the tips, the first cell that asks claims the
-- probe when the last one is 15 seconds old, and after that every cell is refused until 15 seconds have
-- passed again.
pub starved_turn :
    (e : Engine) (now later cell cell' : ℕ) (c c' : CellChain)
    → get_elem? e.tips cell ≡ some c
    → get_elem? e.tips cell' ≡ some c'
    → is_starved e.mode ≡ true
    → e.leader ≡ true
    → e.needs_rederive ≡ false
    → e.last_probe + 15000 ≤ now
    → (e' : Engine) × (turn_ready e now cell ≡ some (e', true))
      × ((later < now + 15000) → turn_ready e' later cell' ≡ some (e', false))
      × ((now + 15000 ≤ later)
          → turn_ready e' later cell' ≡ some (record e' { last_probe = later }, true))
unfolding turn_ready turn_ready? ready_at claim_probe
starved_turn e now later cell cell' c c' h h' s l r p = (
  record e { last_probe = now },
  rw (h, s, l, r, old e.last_probe now p) refl,
  λ q. rw (h', s, l, r, recent now later q) refl,
  λ q. rw (h', s, l, r, old now later q) refl,
)
