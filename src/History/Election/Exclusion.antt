-- ===== src/History/Election/Exclusion.antt =====
-- internal/history/history.go: a granted lease excludes the other owners while it runs.
use rule_110_arcade.Base.{
  ℕ, ◌+◌, ◌≤◌, ◌≡◌, ◌≢◌, refl, sym, ap, ◌∙◌, arith, true, false, Option, none, some, List, [], ◌∷◌,
  String, if◌then◌else◌, ltb, str_eq, str_eq_iff, str_eq_refl, Bool-cases, inl, inr,
}
use mathlib.Core.Path.{subst}
use mathlib.Core.Option.{some-injective}
use rule_110_arcade.History.{Lease, Store}
use rule_110_arcade.History.Election.{
  find_lease, take_over, acquire_row, acquire_lease, drop_lease, release_lease, Op, acquire,
  release, run_op, run_ops, Respects,
}

-- The lease is held until a time that is not earlier than `until`.
abbrev IsHeld : String → String → ℕ → List Lease → Type 0
IsHeld name holder until ls =
    (l : Lease) × (find_lease name ls ≡ some l) × (l.owner ≡ holder) × (until ≤ l.expires_at)

find_lease-name :
    (name : String) (ls : List Lease) {l : Lease} → find_lease name ls ≡ some l → l.name ≡ name
unfolding find_lease
find_lease-name name [] e = cc
find_lease-name name (k ∷ ks) {l} e = elim (Bool-cases (str_eq k.name name)) [
  | inl p ↦
      subst (λ (x : Lease). x.name ≡ name) (some-injective k l (rw p at e))
        ((str_eq_iff k.name name).0 p)
  | inr p ↦ find_lease-name name ks (rw p at e)
]

find_lease-take_over :
    (n name owner : String) (until : ℕ) (ls : List Lease) (l : Lease)
    → find_lease n ls ≡ some l
    → find_lease n (take_over name owner until ls)
      ≡ some (if str_eq name n then record l { owner = owner; expires_at = until } else l)
unfolding find_lease take_over
find_lease-take_over n name owner until [] l e = cc
find_lease-take_over n name owner until (k ∷ ks) l e = ground (
  arith,
  find_lease-take_over n name owner until ks l,
  str_eq_iff k.name name,
  str_eq_iff k.name n,
  str_eq_iff name n,
)

find_lease-drop_lease :
    (n name owner : String) (ls : List Lease) (l : Lease)
    → find_lease n ls ≡ some l
    → (n ≡ name → owner ≢ l.owner)
    → find_lease n (drop_lease name owner ls) ≡ some l
unfolding find_lease drop_lease
find_lease-drop_lease n name owner [] l e h = cc
find_lease-drop_lease n name owner (k ∷ ks) l e h = elim (Bool-cases (str_eq k.name n)) [
  | inr p ↦ ground (arith, find_lease-drop_lease n name owner ks l (rw p at e) h)
  | inl p ↦
      let kl : k ≡ l = some-injective k l (rw p at e) in
      let spared : (str_eq k.name name ≡ true) → (str_eq k.owner owner ≡ true) → ⊥ = λ a b.
        h (sym ((str_eq_iff k.name n).0 p) ∙ (str_eq_iff k.name name).0 a)
          (sym ((str_eq_iff k.owner owner).0 b) ∙ ap (λ (x : Lease). x.owner) kl) in
      elim (Bool-cases (str_eq k.name name)) [
        | inr a ↦ rw (a, p) (ap some kl)
        | inl a ↦ elim (Bool-cases (str_eq k.owner owner)) [
          | inr b ↦ rw (a, b, p) (ap some kl)
          | inl b ↦ absurd (spared a b)
        ]
      ]
]

module _ (name holder : String) (until : ℕ) where
  -- Before `until` only the holder may write to the lease.
  owner_of_write :
      (k : Lease) (w : String) (now : ℕ)
      → (if str_eq k.owner w then true else ltb k.expires_at now) ≡ true
      → now ≤ until
      → k.owner ≡ holder
      → until ≤ k.expires_at
      → w ≡ holder
  owner_of_write k w now t early owned long = ground (arith, str_eq_iff k.owner w)

  -- An expired lease cannot be one that is still held, so only its owner writes to it.
  acquire_row-IsHeld :
      (ls : List Lease) (n w : String) (ttl now : ℕ) (o : Option Lease)
      → find_lease n ls ≡ o
      → now ≤ until
      → (w ≡ holder → until ≤ now + ttl)
      → IsHeld name holder until ls
      → IsHeld name holder until (acquire_row ls n w ttl now o).0
  unfolding acquire_row
  acquire_row-IsHeld ls n w ttl now none free early renews (l, found, owned, long) =
      elim (Bool-cases (str_eq n name)) [
        | inl e ↦ cc (free, found, (str_eq_iff n name).0 e)
        | inr e ↦ (l, unfold find_lease in rw e found, owned, long)
      ]
  acquire_row-IsHeld ls n w ttl now (some k) there early renews (l, found, owned, long) =
      let moved = find_lease-take_over name n w (now + ttl) ls l found in
      elim (Bool-cases (if str_eq k.owner w then true else ltb k.expires_at now)) [
        | inr t ↦ rw t (l, found, owned, long)
        | inl t ↦ rw t (elim (Bool-cases (str_eq n name)) [
          | inr e ↦ (l, rw e at moved, owned, long)
          | inl e ↦
              let kl : k ≡ l =
                some-injective k l
                  (sym there ∙ ap (λ m. find_lease m ls) ((str_eq_iff n name).0 e) ∙ found) in
              let ours : w ≡ holder =
                owner_of_write k w now t early (ap (λ (x : Lease). x.owner) kl ∙ owned)
                  (subst (λ (x : Lease). until ≤ x.expires_at) (sym kl) long) in
              (record l { owner = w; expires_at = now + ttl }, rw e at moved, ours, renews ours)
        ])
      ]

  acquire-IsHeld :
      (s : Store) (n w : String) (ttl now : ℕ)
      → now ≤ until
      → (w ≡ holder → until ≤ now + ttl)
      → IsHeld name holder until s.leases
      → IsHeld name holder until (acquire_lease s n w ttl now).0.leases
  unfolding acquire_lease
  acquire-IsHeld s n w ttl now early renews h =
      acquire_row-IsHeld s.leases n w ttl now _ refl early renews h

  release-IsHeld :
      (s : Store) (n w : String)
      → (n ≡ name → w ≢ holder)
      → IsHeld name holder until s.leases
      → IsHeld name holder until (release_lease s n w).leases
  unfolding release_lease
  release-IsHeld s n w not_ours (l, found, owned, long) = (
    l,
    find_lease-drop_lease name n w s.leases l found (λ e. rw owned (not_ours (sym e))),
    owned,
    long,
  )

  run_ops-IsHeld :
      (s : Store) (ops : List Op)
      → Respects name holder until ops
      → IsHeld name holder until s.leases
      → IsHeld name holder until (run_ops s ops).leases
  unfolding run_ops run_op
  run_ops-IsHeld s [] r h = h
  run_ops-IsHeld s (acquire n w ttl now ∷ os) r h =
      run_ops-IsHeld (run_op s (acquire n w ttl now)) os r.2
        (acquire-IsHeld s n w ttl now r.0 r.1 h)
  run_ops-IsHeld s (release n w ∷ os) r h =
      run_ops-IsHeld (run_op s (release n w)) os r.1 (release-IsHeld s n w r.0 h)

  refused :
      (s : Store) (w : String) (ttl now : ℕ)
      → now ≤ until
      → w ≢ holder
      → IsHeld name holder until s.leases
      → (acquire_lease s name w ttl now).1 ≡ false
  unfolding acquire_lease acquire_row
  refused s w ttl now early ne (l, found, owned, long) =
      rw found (ground (arith, str_eq_iff l.owner w))

granted_row :
    (ls : List Lease) (name owner : String) (ttl now : ℕ) (o : Option Lease)
    → find_lease name ls ≡ o
    → (acquire_row ls name owner ttl now o).1 ≡ true
    → IsHeld name owner (now + ttl) (acquire_row ls name owner ttl now o).0
unfolding acquire_row find_lease
granted_row ls name owner ttl now none free h = (
  record { name = name; owner = owner; expires_at = now + ttl },
  rw (str_eq_refl name),
  refl,
  omega arith,
)
granted_row ls name owner ttl now (some k) there h =
    elim (Bool-cases (if str_eq k.owner owner then true else ltb k.expires_at now)) [
      | inr t ↦ cc (rw t at h)
      | inl t ↦ rw t (
        record k { owner = owner; expires_at = now + ttl },
        rw (str_eq_refl name) at (find_lease-take_over name name owner (now + ttl) ls k there),
        refl,
        omega arith,
      )
    ]

granted :
    (s : Store) (name owner : String) (ttl now : ℕ)
    → (acquire_lease s name owner ttl now).1 ≡ true
    → IsHeld name owner (now + ttl) (acquire_lease s name owner ttl now).0.leases
unfolding acquire_lease
granted s name owner ttl now h = granted_row s.leases name owner ttl now _ refl h

-- Mutual exclusion: once `holder` has acquired the lease at `now` for `ttl`, no other owner acquires it
-- up to the time `now + ttl`, after any sequence of acquisitions and releases by anybody that no clock
-- puts past that time and in which the holder neither releases it nor shortens it.
pub acquire_lease_exclusive :
    (s : Store) (name holder rival : String) (ttl now ttl' later : ℕ) (ops : List Op)
    → (acquire_lease s name holder ttl now).1 ≡ true
    → Respects name holder (now + ttl) ops
    → later ≤ now + ttl
    → rival ≢ holder
    → (acquire_lease (run_ops (acquire_lease s name holder ttl now).0 ops) name rival ttl' later).1
      ≡ false
acquire_lease_exclusive s name holder rival ttl now ttl' later ops held r early ne =
    refused name holder (now + ttl) _ rival ttl' later early ne
      (run_ops-IsHeld name holder (now + ttl) _ ops r (granted s name holder ttl now held))
