-- ===== src/Engine/Worker.antt =====
-- internal/engine/worker.go: the clock, the gates of a cell's turn, and the frontier. A time is a
-- number, and a map's missing entry reads as zero, as in Go.
use rule_110_arcade.Base.{
  ℕ, suc, ◌+◌, ◌-◌, ◌%◌, Bool, true, false, not, ◌||◌, Option, none, some, List, [], ◌∷◌, ltb, leb,
  if◌then◌else◌, u64, get_elem?,
}
use rule_110_arcade.Chain.{CellChain}

pub data Mode : Type 0 where
  paused running starved : Mode

abbrev pub is_starved : Mode → Bool
is_starved starved = true
is_starved _ = false

abbrev pub is_running : Mode → Bool
is_running running = true
is_running _ = false

-- The fields of `Engine` that the functions below read and write, and the limits of its configuration.
pub record Engine : Type 0 where
  pub mode : Mode
  pub target : ℕ
  pub generation : ℕ
  pub tips : List CellChain
  pub halted : ℕ → Bool
  pub last_mined : ℕ → ℕ
  pub last_seen : ℕ → ℕ
  pub leader : Bool
  pub needs_rederive : Bool
  pub starved_since : Option ℕ
  pub last_probe : ℕ
  pub waiting_on_coin : ℕ → Bool
  pub lock_controls : Bool
  pub max_lag : ℕ
  pub max_unconfirmed_depth : ℕ
  pub max_unseen_depth : ℕ

-- a - b on uint64, which wraps around below 0
abbrev pub sub64 : ℕ → ℕ → ℕ
sub64 a b = (a + 18446744073709551616 - b) % 18446744073709551616

-- The loop of `frontierLocked` from cell `i` on; `first` says that no live cell has been met.
unfoldable pub frontier_loop : (ℕ → Bool) → ℕ → List CellChain → ℕ → Bool → ℕ × Bool
frontier_loop halted i [] frontier first = (frontier, first)
frontier_loop halted i (c ∷ cs) frontier first =
    let skip = frontier_loop halted (suc i) cs frontier first in
    let take = frontier_loop halted (suc i) cs c.generation false in
    if halted i then skip else if first || ltb c.generation frontier then take else skip

unfoldable pub frontier_locked : Engine → ℕ
unfolding frontier_loop
frontier_locked e =
    let (frontier, first) = frontier_loop e.halted 0 e.tips 0 true in
    if first then e.generation else frontier

-- The loop of `deepestLocked` and of `deepestUnseenLocked`.
unfoldable pub deepest_loop : (ℕ → Bool) → (ℕ → ℕ) → ℕ → List CellChain → ℕ → ℕ
deepest_loop halted last i [] deepest = deepest
deepest_loop halted last i (c ∷ cs) deepest =
    let skip = deepest_loop halted last (suc i) cs deepest in
    let d = sub64 c.generation (last i) in
    let take = deepest_loop halted last (suc i) cs d in
    if halted i
    then skip
    else if ltb (last i) c.generation
    then (if ltb deepest d then take else skip)
    else skip

unfoldable pub deepest_locked : Engine → ℕ
unfolding deepest_loop
deepest_locked e = deepest_loop e.halted e.last_mined 0 e.tips 0

unfoldable pub deepest_unseen_locked : Engine → ℕ
unfolding deepest_loop
deepest_unseen_locked e = deepest_loop e.halted e.last_seen 0 e.tips 0

-- The write that one turn of `clock` makes. `mode` and `frontier` were read under an earlier lock, so
-- they need not be the engine's any more.
unfoldable pub raise_target : Engine → Mode → ℕ → Engine
raise_target e mode frontier =
    if is_running mode
    then (let target = if ltb e.target frontier then frontier else e.target in
        record e {
          target = if ltb (sub64 target frontier) e.max_lag then u64 (target + 1) else target;
        })
    else e

abbrev pub starvation_probe : ℕ
starvation_probe = 15000

-- Milliseconds; `now` is not before the last probe.
unfoldable pub claim_probe : Engine → ℕ → Engine × Bool
claim_probe e now =
    if ltb (now - e.last_probe) starvation_probe
    then (e, false)
    else (record e { last_probe = now }, true)

-- The gates of `turnReady` after the mode, for a cell at `tip`.
unfoldable pub gates : Engine → ℕ → ℕ → Bool
gates e cell tip =
    let mined = e.last_mined cell in
    let seen = e.last_seen cell in
    if (if ltb 0 e.max_unconfirmed_depth
      then leb e.max_unconfirmed_depth (sub64 tip mined)
      else false)
    then false
    else if (if ltb 0 e.max_unseen_depth
        then (if ltb seen tip then leb e.max_unseen_depth (sub64 tip seen) else false)
        else false)
    then false
    else ltb tip e.target

-- For the tip of `cell`; the answer may claim the probe.
unfoldable pub ready_at : Engine → ℕ → ℕ → ℕ → Engine × Bool
unfolding gates claim_probe
ready_at e now cell tip =
    if not e.leader
    then (e, false)
    else if e.needs_rederive
    then (e, false)
    else if is_starved e.mode
    then claim_probe e now
    else (e, gates e cell tip)

-- `none` is the panic of a cell that is outside the ring.
unfoldable pub turn_ready? : Engine → ℕ → ℕ → Option CellChain → Option (Engine × Bool)
unfolding ready_at
turn_ready? e now cell none = none
turn_ready? e now cell (some c) = some (ready_at e now cell c.generation)

unfoldable pub turn_ready : Engine → ℕ → ℕ → Option (Engine × Bool)
unfolding turn_ready?
turn_ready e now cell = turn_ready? e now cell (get_elem? e.tips cell)

-- `SetMode` and `Step`, which locked controls refuse.
unfoldable pub set_mode : Engine → Mode → Engine
unfolding frontier_locked
set_mode e m =
    if e.lock_controls
    then e
    else if is_running m
    then (let f = frontier_locked e in
        record e {
          starved_since = none;
          target = if ltb e.target f then f else e.target;
          mode = m;
        })
    else record e { mode = m }

unfoldable pub step : Engine → Engine
unfolding frontier_locked
step e =
    if e.lock_controls
    then e
    else (let f = frontier_locked e in
        record e {
          target = if ltb e.target (u64 (f + 1)) then u64 (f + 1) else u64 (e.target + 1);
        })

unfoldable pub set_leader : Engine → Bool → Engine
set_leader e held = record e {
  leader = held;
  needs_rederive = if (if held then not e.leader else false) then true else e.needs_rederive;
}

unfoldable pub clear_starvation : Engine → Engine
clear_starvation e = elim e.starved_since [
  | none ↦ if is_starved e.mode then record e { mode = running } else e
  | some _ ↦ record e { starved_since = none; mode = if is_starved e.mode then running else e.mode }
]
