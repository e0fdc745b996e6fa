-- ===== src/Chain/SpentTip/Named.antt =====
-- internal/chain/recover.go: which transaction a refusal names.
use rule_110_arcade.Base.{
  ℕ, ◌≡◌, ◌⊎◌, ◌↔◌, inl, inr, refl, ap, ◌∙◌, true, false, Option, none, some, [], ◌∷◌, ◌++◌,
  if◌then◌else◌, length, drop, if_known, option_known, Bool-cases, guard-some,
}
use mathlib.Core.Path.{subst}
use rule_110_arcade.Cellscript.Pieces.{drop-++}
use rule_110_arcade.Chain.{Bytes}
use rule_110_arcade.Chain.Refusal.{has_prefix, contains, to_lower, is_utxo_spent, utxo_spent_marker}
use rule_110_arcade.Chain.SpentTip.{
  spent_by_phrase, equal_text, leading_tx_id, trim_left, spent_by_loop, spent_by,
}
use rule_110_arcade.Chain.SpentTip.Ids.{
  IsIdAt, equal_text-eq, equal_text_refl, has_prefix-drop, has_prefix-append, leading-IsIdAt,
  IsIdAt-leading,
}

-- The text `t` stands in `s`, with `pre` before it and `post` after it.
abbrev pub StandsIn : Bytes → Bytes → Bytes → Bytes → Type 0
StandsIn t s pre post = s ≡ pre ++ (t ++ post)

-- The refusal is marked as a spent output, and the phrase stands in it, each time before the one id.
pub record IsNamedBy (rejection id : Bytes) : Type 0 where
  pub before : Bytes
  pub behind : Bytes
  pub marked : StandsIn utxo_spent_marker (to_lower rejection) before behind
  pub pre : Bytes
  pub post : Bytes
  pub place : StandsIn spent_by_phrase (to_lower rejection) pre post
  pub every : (u w : Bytes) → StandsIn spent_by_phrase (to_lower rejection) u w → IsIdAt w id

-- What the loop finds on `s`, where `found` is the id that it has.
record Finds (s : Bytes) (found : Option Bytes) (id : Bytes) : Type 0 where
  every : (u w : Bytes) → StandsIn spent_by_phrase s u w → IsIdAt w id
  place : (found ≡ some id) ⊎ ((found ≡ none) × ((u w : Bytes) × StandsIn spent_by_phrase s u w))

not_nil : (u w : Bytes) → ¬ StandsIn spent_by_phrase [] u w
not_nil [] w e = cc e
not_nil (b ∷ u) w e = cc e

module _ (c : ℕ) (s id : Bytes) where
  every_cons :
      ((w : Bytes) → StandsIn spent_by_phrase (c ∷ s) [] w → IsIdAt w id)
      → ((u w : Bytes) → StandsIn spent_by_phrase s u w → IsIdAt w id)
      → (u w : Bytes) → StandsIn spent_by_phrase (c ∷ s) u w
      → IsIdAt w id
  every_cons f g [] w e = f w e
  every_cons f g (b ∷ u) w e = g u w (ap (drop 1) e)

  every_tail :
      ((u w : Bytes) → StandsIn spent_by_phrase (c ∷ s) u w → IsIdAt w id)
      → (u w : Bytes) → StandsIn spent_by_phrase s u w
      → IsIdAt w id
  every_tail f u w e = f (c ∷ u) w (ap (λ t. c ∷ t) e)

  placed :
      (found : Option Bytes)
      → has_prefix (c ∷ s) spent_by_phrase ≡ false
      → ((found ≡ some id)
          ⊎ ((found ≡ none) × ((u w : Bytes) × StandsIn spent_by_phrase (c ∷ s) u w)))
      → (found ≡ some id) ⊎ ((found ≡ none) × ((u w : Bytes) × StandsIn spent_by_phrase s u w))
  placed found away (inl e) = inl e
  placed found away (inr (e, ([], w, at))) =
      absurd
        (cc (away, ap (λ t. has_prefix t spent_by_phrase) at, has_prefix-append spent_by_phrase w))
  placed found away (inr (e, (b ∷ u, w, at))) = inr (e, (u, w, ap (drop 1) at))

  -- The phrase stands at the front, or somewhere behind.
  first_is :
      has_prefix (c ∷ s) spent_by_phrase ≡ false
      → (w : Bytes) → StandsIn spent_by_phrase (c ∷ s) [] w
      → IsIdAt w id
  first_is e w h =
      absurd (cc (e, ap (λ t. has_prefix t spent_by_phrase) h, has_prefix-append spent_by_phrase w))

  front_is :
      IsIdAt (drop (length spent_by_phrase) (c ∷ s)) id
      → (w : Bytes) → StandsIn spent_by_phrase (c ∷ s) [] w
      → IsIdAt w id
  front_is h w e =
      subst (λ t. IsIdAt t id) (ap (drop (length spent_by_phrase)) e ∙ drop-++ spent_by_phrase w) h

  found_front :
      (found : Option Bytes) (txid : Bytes)
      → has_prefix (c ∷ s) spent_by_phrase ≡ true
      → leading_tx_id (trim_left (drop (length spent_by_phrase) (c ∷ s))) ≡ some txid
      → Finds s (some txid) id
      → (found ≡ none) ⊎ (found ≡ some txid)
      → Finds (c ∷ s) found id
  found_front found txid here read f h =
      let same : some txid ≡ some id = elim f.place [ inl e ↦ e | inr (e, x) ↦ absurd (cc e) ] in
      record {
        every = every_cons (front_is (leading-IsIdAt _ id (read ∙ same))) f.every;
        place = elim h [
          | inl e ↦ inr (
            e,
            (
              [],
              drop (length spent_by_phrase) (c ∷ s),
              has_prefix-drop (c ∷ s) spent_by_phrase here,
            ),
          )
          | inr e ↦ inl (e ∙ same)
        ];
      }

found_once :
    (c : ℕ) (s id : Bytes) (found : Option Bytes) (txid : Bytes)
    → has_prefix (c ∷ s) spent_by_phrase ≡ true
    → leading_tx_id (trim_left (drop (length spent_by_phrase) (c ∷ s))) ≡ some txid
    → (spent_by_loop s (some txid) ≡ some id → Finds s (some txid) id)
    → (elim found [
      | none ↦ spent_by_loop s (some txid)
      | some f ↦ if equal_text f txid then spent_by_loop s (some txid) else none
    ])
      ≡ some id
    → Finds (c ∷ s) found id
found_once c s id none txid here read later =
    λ e. found_front c s id none txid here read (later e) (inl refl)
found_once c s id (some f) txid here read later =
    if_known (λ (o : Option Bytes). o ≡ some id → Finds (c ∷ s) (some f) id) (equal_text f txid) _ _
      (λ same e.
        found_front c s id (some f) txid here read (later e)
          (inr (ap (λ t. some t) (equal_text-eq f txid same))))
      (λ _ e. absurd (cc e))

spent_by_loop-Finds :
    (s : Bytes) (found : Option Bytes) (id : Bytes)
    → spent_by_loop s found ≡ some id
    → Finds s found id
unfolding spent_by_loop
spent_by_loop-Finds [] found id =
    λ e. record { every = λ u w h. absurd (not_nil u w h); place = inl e }
spent_by_loop-Finds (c ∷ s) found id =
    let P : Option Bytes → Type 0 = λ o. o ≡ some id → Finds (c ∷ s) found id in
    if_known P (has_prefix (c ∷ s) spent_by_phrase) _ _
      (λ here.
        option_known P (leading_tx_id (trim_left (drop (length spent_by_phrase) (c ∷ s)))) _ _
          (λ e. absurd (cc e))
          (λ txid read.
            found_once c s id found txid here read (spent_by_loop-Finds s (some txid) id)))
      (λ away e.
        let f = spent_by_loop-Finds s found id e in
        record {
          every = every_cons c s id (first_is c s id away) f.every;
          place = elim f.place [
            | inl h ↦ inl h
            | inr (h, (u, w, at)) ↦ inr (h, (c ∷ u, w, ap (λ t. c ∷ t) at))
          ];
        })

Finds-spent_by_loop :
    (s : Bytes) (found : Option Bytes) (id : Bytes)
    → Finds s found id
    → spent_by_loop s found ≡ some id
unfolding spent_by_loop
Finds-spent_by_loop [] found id h = elim h.place [
  | inl e ↦ e
  | inr (e, (u, w, at)) ↦ absurd (not_nil u w at)
]
Finds-spent_by_loop (c ∷ s) found id h = elim (Bool-cases (has_prefix (c ∷ s) spent_by_phrase)) [
  | inl here ↦
      let read =
        IsIdAt-leading _ id (h.every [] _ (has_prefix-drop (c ∷ s) spent_by_phrase here)) in
      let later : spent_by_loop s (some id) ≡ some id =
        Finds-spent_by_loop s (some id) id
          (record { every = every_tail c s id h.every; place = inl refl }) in
      elim h.place [
        | inl e ↦ rw (spent_by_loop, here, read, e, equal_text_refl id) later
        | inr (e, x) ↦ rw (spent_by_loop, here, read, e) later
      ]
  | inr away ↦
      rw (spent_by_loop, away)
        (Finds-spent_by_loop s found id
          (record { every = every_tail c s id h.every; place = placed c s id found away h.place }))
]

contains-StandsIn : (s t : Bytes) → contains s t ≡ true → (u w : Bytes) × StandsIn t s u w
unfolding contains
contains-StandsIn [] t = λ e. ([], drop (length t) [], has_prefix-drop [] t e)
contains-StandsIn (b ∷ s) t =
    if_known (λ x. x ≡ true → (u w : Bytes) × StandsIn t (b ∷ s) u w) (has_prefix (b ∷ s) t) _ _
      (λ here _. ([], drop (length t) (b ∷ s), has_prefix-drop (b ∷ s) t here))
      (λ _ e. let (u, w, at) = contains-StandsIn s t e in (b ∷ u, w, ap (λ r. b ∷ r) at))

has_prefix-contains : (s t : Bytes) → has_prefix s t ≡ true → contains s t ≡ true
unfolding contains
has_prefix-contains [] t e = e
has_prefix-contains (b ∷ s) t e = rw (contains, e) refl

contains-append : (u t w : Bytes) → contains (u ++ (t ++ w)) t ≡ true
unfolding contains
contains-append [] t w = has_prefix-contains (t ++ w) t (has_prefix-append t w)
contains-append (b ∷ u) t w =
    if_known (λ x. x ≡ true) (has_prefix (b ∷ (u ++ (t ++ w))) t) _ _ (λ _. refl)
      (λ _. contains-append u t w)

-- A refusal names a transaction exactly if the marker of a spent output stands in it, in either
-- case of letters, and the phrase does, each time followed by separators and then the transaction's
-- id and no other digit.
pub spent_by_lem : (rejection id : Bytes) → (spent_by rejection ≡ some id) ↔ IsNamedBy rejection id
unfolding spent_by is_utxo_spent
spent_by_lem rejection id = (
  λ e.
      let (marked, e1) = guard-some (contains (to_lower rejection) utxo_spent_marker) _ e in
      let (before, behind, stands) =
        contains-StandsIn (to_lower rejection) utxo_spent_marker marked in
      let f = spent_by_loop-Finds (to_lower rejection) none id e1 in
      let found : (u w : Bytes) × StandsIn spent_by_phrase (to_lower rejection) u w = elim f.place [
        | inl x ↦ absurd (cc x)
        | inr (x, y) ↦ y
      ] in
      record {
        before = before;
        behind = behind;
        marked = stands;
        pre = found.0;
        post = found.1;
        place = found.2;
        every = f.every;
      },
  λ h.
      let marked : contains (to_lower rejection) utxo_spent_marker ≡ true =
        ap (λ t. contains t utxo_spent_marker) h.marked
        ∙ contains-append h.before utxo_spent_marker h.behind in
      rw (marked) (
        Finds-spent_by_loop (to_lower rejection) none id
          (record { every = h.every; place = inr (refl, (h.pre, h.post, h.place)) })),
)
