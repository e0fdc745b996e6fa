-- ===== src/Cellscript/Amount.antt =====
-- internal/cellscript/cellscript.go: which pushes are amounts, and which amount.
use rule_110_arcade.Base.{
  ℕ, zero, suc, ◌+◌, ◌*◌, ◌/◌, ◌%◌, ◌≤◌, ◌<◌, ◌≡◌, ◌↔◌, refl, sym, ap, ◌∙◌, arith, true, false,
  some, [], ◌∷◌, length, ltb, ◌==◌, refuse-some, guard-some, ==_iff,
}
use mathlib.Core.Option.{some-injective}
use rule_110_arcade.Ca.{IsRow}
use rule_110_arcade.Chain.{Bytes}
use rule_110_arcade.Cellscript.Unlocking.{
  Script, ScriptChunk, pushed_bytes, last_byte, number_loop, pushed_number, script_uint,
}

-- The number that bytes write, the lowest first.
abbrev pub little_endian : Bytes → ℕ
little_endian [] = 0
little_endian (b ∷ bs) = b + 256 * little_endian bs

abbrev pub room : ℕ → ℕ
room zero = 1
room (suc k) = 256 * room k

room-positive : (k : ℕ) → 0 < room k
room-positive zero = omega arith
room-positive (suc k) = let p = room-positive k in omega (arith, p)

little_endian-room : (bs : Bytes) (k : ℕ) → IsRow bs → length bs ≤ k → little_endian bs < room k
little_endian-room [] k h l = room-positive k
little_endian-room (b ∷ bs) zero h l = absurd (omega (arith, l))
little_endian-room (b ∷ bs) (suc k) (p, h) l =
    let q = little_endian-room bs k h (omega (arith, l)) in omega (arith, p, q)

little_endian-clear :
    (b : ℕ) (bs : Bytes) (k : ℕ)
    → IsRow (b ∷ bs)
    → last_byte b bs < 128
    → length bs ≤ k
    → little_endian (b ∷ bs) < 128 * room k
little_endian-clear b [] k h t l = let p = room-positive k in omega (arith, p, t)
little_endian-clear b (c ∷ bs) zero h t l = absurd (omega (arith, l))
little_endian-clear b (c ∷ bs) (suc k) (p, h) t l =
    let q = little_endian-clear c bs k h t (omega (arith, l)) in omega (arith, p, q)

-- The shifts do not overflow on eight bytes.
pub number_loop-little_endian :
    (bs : Bytes) → IsRow bs → length bs ≤ 8 → number_loop bs ≡ little_endian bs
unfolding number_loop
number_loop-little_endian [] h l = refl
number_loop-little_endian (b ∷ bs) (p, h) l =
    let e = number_loop-little_endian bs h (omega (arith, l)) in
    let q = little_endian-room bs 7 h (omega (arith, l)) in rw (e) (omega (arith, q))

abbrev pub IsAmount : Bytes → ℕ → Type 0
IsAmount [] n = n ≡ 0
IsAmount (b ∷ bs) n =
    (length (b ∷ bs) ≤ 8)
    × (last_byte b bs < 128)
    × (n ≡ little_endian (b ∷ bs))
    × (n < 9223372036854775808)

pub ltb-false→le : (a b : ℕ) → ltb a b ≡ false → b ≤ a
ltb-false→le a b h = ground arith

pub le→ltb-false : (a b : ℕ) → b ≤ a → ltb a b ≡ false
le→ltb-false a b h = ground arith

top_clear : (x : ℕ) → x < 128 → (x / 128 % 2 == 0) ≡ true
top_clear x h = (==_iff (x / 128 % 2) 0).1 (omega (arith, h))

clear_top : (x : ℕ) → x < 256 → (x / 128 % 2 == 0) ≡ true → x < 128
clear_top x h e = let z = (==_iff (x / 128 % 2) 0).0 e in omega (arith, h, z)

last_byte-IsByte : (b : ℕ) (bs : Bytes) → IsRow (b ∷ bs) → last_byte b bs < 256
last_byte-IsByte b [] (p, h) = p
last_byte-IsByte b (c ∷ bs) (p, h) = last_byte-IsByte c bs h

pushed_number_lem : (bs : Bytes) (n : ℕ) → IsRow bs → (pushed_number bs ≡ some n) ↔ IsAmount bs n
unfolding pushed_number
pushed_number_lem [] n h = (λ e. sym (some-injective 0 n e), λ e. ap some (sym e))
pushed_number_lem (b ∷ bs) n h = (
  λ e.
      let (short, e1) = refuse-some (ltb 8 (length (b ∷ bs))) _ e in
      let (clear, e2) = guard-some (last_byte b bs / 128 % 2 == 0) _ e1 in
      let fits = ltb-false→le 8 (length (b ∷ bs)) short in
      let low = clear_top (last_byte b bs) (last_byte-IsByte b bs h) clear in
      let same =
        sym (some-injective (number_loop (b ∷ bs)) n e2)
        ∙ number_loop-little_endian (b ∷ bs) h fits in
      let bound = little_endian-clear b bs 7 h low (omega (arith, fits)) in
      (fits, low, same, omega (arith, same, bound)),
  λ (fits, low, same, bound).
      rw (le→ltb-false 8 (length (b ∷ bs)) fits, top_clear (last_byte b bs) low)
        (ap some (number_loop-little_endian (b ∷ bs) h fits ∙ sym same)),
)

-- A push of bytes is an amount exactly if it is empty, or at most eight bytes without a sign; the
-- amount is then what its bytes write, the lowest first, and is below 2^63.
pub script_uint_lem :
    (o : Script) (chunk : ScriptChunk) (n : ℕ)
    → IsRow (pushed_bytes o chunk)
    → (script_uint o chunk ≡ some n) ↔ IsAmount (pushed_bytes o chunk) n
unfolding script_uint
script_uint_lem o chunk n h = pushed_number_lem (pushed_bytes o chunk) n h
