-- ===== src/Chain/SpentTip/Ids.antt =====
-- internal/chain/recover.go: the transaction id that follows a phrase in a refusal.
use rule_110_arcade.Base.{
  ℕ, suc, ◌≤◌, ◌≡◌, ◌≢◌, ◌⊎◌, ◌↔◌, inl, inr, refl, sym, ap, ◌∙◌, arith, true, false, not, ◌||◌,
  some, [], ◌∷◌, ◌++◌, All, ◌==◌, ==_iff, ==_refl, length, take, drop, head?, replicate, if_known,
  Bool-cases, both, refuse-some, not-false,
}
use mathlib.Core.Path.{subst}
use mathlib.Core.Option.{some-injective}
use rule_110_arcade.Cellscript.Pieces.{take-++}
use rule_110_arcade.Chain.{Bytes}
use rule_110_arcade.Chain.Refusal.{has_prefix}
use rule_110_arcade.Chain.SpentTip.{is_hex_digit, count_hex, equal_text, leading_tx_id, trim_left}

abbrev pub IsSeparator : ℕ → Type 0
IsSeparator c = (c ≡ b' ') ⊎ (c ≡ 9) ⊎ (c ≡ b':')

abbrev pub IsHexDigit : ℕ → Type 0
IsHexDigit c = ((b'0' ≤ c) × (c ≤ b'9')) ⊎ ((b'a' ≤ c) × (c ≤ b'f'))

-- What follows a phrase: separators, and then 64 hex digits and no more, not all zero.
pub record IsIdAt (s id : Bytes) : Type 0 where
  pub gap : Bytes
  pub rest : Bytes
  pub split : s ≡ gap ++ (id ++ rest)
  pub separators : All IsSeparator gap
  pub digits : All IsHexDigit id
  pub sized : length id ≡ 64
  pub ends : (c : ℕ) → head? rest ≡ some c → ¬ IsHexDigit c
  pub nonzero : id ≢ replicate 64 b'0'

is_hex_digit_iff : (c : ℕ) → (is_hex_digit c ≡ true) ↔ IsHexDigit c
unfolding is_hex_digit
is_hex_digit_iff c = (λ e. ground (arith, e), λ h. ground (arith, h))

pub equal_text-eq : (s t : Bytes) → equal_text s t ≡ true → s ≡ t
unfolding equal_text
equal_text-eq [] [] e = refl
equal_text-eq [] (b ∷ t) e = cc e
equal_text-eq (a ∷ s) [] e = cc e
equal_text-eq (a ∷ s) (b ∷ t) e =
    let (h, r) = both (a == b) (equal_text s t) e in rw ((==_iff a b).0 h, equal_text-eq s t r) refl

pub equal_text_refl : (s : Bytes) → equal_text s s ≡ true
unfolding equal_text
equal_text_refl [] = refl
equal_text_refl (a ∷ s) = rw (==_refl a) (equal_text_refl s)

pub has_prefix-drop : (s p : Bytes) → has_prefix s p ≡ true → s ≡ p ++ drop (length p) s
unfolding has_prefix
has_prefix-drop s [] e = refl
has_prefix-drop [] (b ∷ p) e = cc e
has_prefix-drop (a ∷ s) (b ∷ p) e =
    let (same, more) = both (a == b) (has_prefix s p) e in
    rw ((==_iff a b).0 same) (ap (λ t. b ∷ t) (has_prefix-drop s p more))

pub has_prefix-append : (p post : Bytes) → has_prefix (p ++ post) p ≡ true
unfolding has_prefix
has_prefix-append [] post = refl
has_prefix-append (b ∷ p) post = rw (==_refl b) (has_prefix-append p post)

-- The separators that are trimmed.
record IsTrimmed (s : Bytes) : Type 0 where
  gap : Bytes
  split : s ≡ gap ++ trim_left s
  separators : All IsSeparator gap

trim_left-IsTrimmed : (s : Bytes) → IsTrimmed s
unfolding trim_left
trim_left-IsTrimmed [] = record { gap = []; split = refl; separators = tt }
trim_left-IsTrimmed (c ∷ s) =
    let more = trim_left-IsTrimmed s in
    elim (Bool-cases (c == b' ' || (c == 9 || c == b':'))) [
      | inl sep ↦ record {
        gap = c ∷ more.gap;
        split = rw (trim_left, sep) (ap (λ t. c ∷ t) more.split);
        separators = (ground (arith, sep), more.separators);
      }
      | inr other ↦ record { gap = []; split = rw (trim_left, other) refl; separators = tt }
    ]

trim_left-gap :
    (gap s : Bytes)
    → All IsSeparator gap
    → ((c : ℕ) → head? s ≡ some c → ¬ IsSeparator c)
    → trim_left (gap ++ s) ≡ s
unfolding trim_left
trim_left-gap [] [] h f = refl
trim_left-gap [] (c ∷ s) h f =
    let other : (c == b' ' || (c == 9 || c == b':')) ≡ false = ground (arith, f c refl) in
    rw (other) refl
trim_left-gap (g ∷ gap) s (h, hs) f =
    let sep : (g == b' ' || (g == 9 || g == b':')) ≡ true = ground (arith, h) in
    rw (sep) (trim_left-gap gap s hs f)

-- The digits that are counted.
record IsCounted (s : Bytes) (n : ℕ) : Type 0 where
  sized : length (take n s) ≡ n
  split : s ≡ take n s ++ drop n s
  digits : All IsHexDigit (take n s)
  ends : (c : ℕ) → head? (drop n s) ≡ some c → ¬ IsHexDigit c

count_hex-IsCounted : (s : Bytes) → IsCounted s (count_hex s)
unfolding count_hex
count_hex-IsCounted [] = record {
  sized = refl;
  split = refl;
  digits = tt;
  ends = λ c e. absurd (cc e);
}
count_hex-IsCounted (c ∷ s) =
    let more = count_hex-IsCounted s in
    if_known (IsCounted (c ∷ s)) (is_hex_digit c) _ _
      (λ digit. record {
        sized = ap suc more.sized;
        split = ap (λ t. c ∷ t) more.split;
        digits = ((is_hex_digit_iff c).0 digit, more.digits);
        ends = more.ends;
      })
      (λ other. record {
        sized = refl;
        split = refl;
        digits = tt;
        ends = λ b e h.
            let same = some-injective c b e in absurd (cc (other, same, (is_hex_digit_iff b).1 h));
      })

count_hex-exact :
    (id rest : Bytes)
    → All IsHexDigit id
    → ((c : ℕ) → head? rest ≡ some c → ¬ IsHexDigit c)
    → count_hex (id ++ rest) ≡ length id
unfolding count_hex
count_hex-exact [] [] h f = refl
count_hex-exact [] (c ∷ rest) h f = elim (Bool-cases (is_hex_digit c)) [
  | inl digit ↦ absurd (f c refl ((is_hex_digit_iff c).0 digit))
  | inr other ↦ rw (count_hex, other) refl
]
count_hex-exact (c ∷ id) rest (h, hs) f =
    rw ((is_hex_digit_iff c).1 h) (ap suc (count_hex-exact id rest hs f))

pub leading-IsIdAt : (w id : Bytes) → leading_tx_id (trim_left w) ≡ some id → IsIdAt w id
unfolding leading_tx_id
leading-IsIdAt w id e =
    let s = trim_left w in
    let (sixty, e1) = refuse-some (not (count_hex s == 64)) _ e in
    let (nonzero, e2) = refuse-some (equal_text (take 64 s) (replicate 64 b'0')) _ e1 in
    let same = some-injective (take 64 s) id e2 in
    let t = trim_left-IsTrimmed w in
    let n = (==_iff (count_hex s) 64).0 (not-false _ sixty) in
    let c = subst (IsCounted s) n (count_hex-IsCounted s) in
    record {
      gap = t.gap;
      rest = drop 64 s;
      split = t.split ∙ ap (λ x. t.gap ++ x) (c.split ∙ ap (λ x. x ++ drop 64 s) same);
      separators = t.separators;
      digits = subst (All IsHexDigit) same c.digits;
      sized = ap length (sym same) ∙ c.sized;
      ends = c.ends;
      nonzero = λ z. absurd (
          cc (
            nonzero,
            ap (λ x. equal_text x (replicate 64 b'0')) (same ∙ z)
                ∙ equal_text_refl (replicate 64 b'0'),
          ));
    }

digit_front :
    (id rest : Bytes)
    → All IsHexDigit id
    → length id ≡ 64
    → (c : ℕ) → head? (id ++ rest) ≡ some c
    → ¬ IsSeparator c
digit_front [] rest h l c e sep = omega (arith, l)
digit_front (b ∷ id) rest (h, hs) l c e sep =
    let same = some-injective b c e in ground (arith, h, same, sep)

pub IsIdAt-leading : (w id : Bytes) → IsIdAt w id → leading_tx_id (trim_left w) ≡ some id
unfolding leading_tx_id
IsIdAt-leading w id h =
    let trimmed : trim_left w ≡ id ++ h.rest =
      ap trim_left h.split
      ∙ trim_left-gap h.gap (id ++ h.rest) h.separators (digit_front id h.rest h.digits h.sized) in
    let counted : (count_hex (id ++ h.rest) == 64) ≡ true =
      (==_iff _ 64).1 (count_hex-exact id h.rest h.digits h.ends ∙ h.sized) in
    let taken : take 64 (id ++ h.rest) ≡ id =
      ap (λ n. take n (id ++ h.rest)) (sym h.sized) ∙ take-++ id h.rest in
    elim (Bool-cases (equal_text id (replicate 64 b'0'))) [
      | inl blank ↦ absurd (h.nonzero (equal_text-eq id _ blank))
      | inr other ↦ rw (leading_tx_id, trimmed, counted, taken, other) refl
    ]
