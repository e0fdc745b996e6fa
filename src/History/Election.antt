-- ===== src/History/Election.antt =====
-- internal/history/history.go: the single-writer lease. A write of `holdLease` is one of these
-- statements, and the database runs them one after the other.
pub mod Exclusion
use rule_110_arcade.Base.{
  ℕ, ◌+◌, ◌≤◌, ◌≡◌, ◌≢◌, refl, sym, ap, ◌∙◌, arith, Bool, true, false, not, Option, none, some,
  List, [], ◌∷◌, String, if◌then◌else◌, filter, ltb, str_eq, str_eq_iff, str_eq_refl, Bool-cases,
  inl, inr,
}
use mathlib.Core.Path.{subst}
use mathlib.Core.Option.{some-injective}
use rule_110_arcade.History.{Lease, Store}

find_lease : String → List Lease → Option Lease
find_lease name [] = none
find_lease name (l ∷ ls) = if str_eq l.name name then some l else find_lease name ls

-- DO UPDATE SET owner, expires_at, of the row with that name.
take_over : String → String → ℕ → List Lease → List Lease
take_over name owner until [] = []
take_over name owner until (l ∷ ls) =
    let rest = take_over name owner until ls in
    if str_eq l.name name then record l { owner = owner; expires_at = until } ∷ ls else l ∷ rest

-- The row's answer to the conflict: its owner renews, and anyone takes over an expired one.
acquire_row : List Lease → String → String → ℕ → ℕ → Option Lease → List Lease × Bool
unfolding take_over
acquire_row ls name owner ttl now none =
    (record { name = name; owner = owner; expires_at = now + ttl } ∷ ls, true)
acquire_row ls name owner ttl now (some l) =
    if (if str_eq l.owner owner then true else ltb l.expires_at now)
    then (take_over name owner (now + ttl) ls, true)
    else (ls, false)

-- The clock is read once, before the statement runs.
unfoldable pub acquire_lease : Store → String → String → ℕ → ℕ → Store × Bool
unfolding find_lease acquire_row
acquire_lease s name owner ttl now =
    let (ls, held) = acquire_row s.leases name owner ttl now (find_lease name s.leases) in
    (record s { leases = ls }, held)

-- DELETE … WHERE name = ? AND owner = ?
drop_lease : String → String → List Lease → List Lease
drop_lease name owner ls =
    filter (λ l. not (if str_eq l.name name then str_eq l.owner owner else false)) ls

unfoldable pub release_lease : Store → String → String → Store
unfolding drop_lease
release_lease s name owner = record s { leases = drop_lease name owner s.leases }

-- A statement on the table of leases; `now` is the caller's clock.
pub data Op : Type 0 where
  acquire : (name owner : String) (ttl now : ℕ) → Op
  release : (name owner : String) → Op

unfoldable pub run_op : Store → Op → Store
unfolding acquire_lease release_lease
run_op s (acquire name owner ttl now) = (acquire_lease s name owner ttl now).0
run_op s (release name owner) = release_lease s name owner

unfoldable pub run_ops : Store → List Op → Store
unfolding run_op
run_ops s [] = s
run_ops s (o ∷ os) = run_ops (run_op s o) os

-- The statements that come before `until`: no clock is past it, and the holder neither gives the lease
-- up nor renews it for a shorter time.
abbrev pub Respects : String → String → ℕ → List Op → Type 0
Respects name holder until [] = Unit {0}
Respects name holder until (acquire n w ttl now ∷ os) =
    (now ≤ until) × (w ≡ holder → until ≤ now + ttl) × Respects name holder until os
Respects name holder until (release n w ∷ os) =
    (n ≡ name → w ≢ holder) × Respects name holder until os
