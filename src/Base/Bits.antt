-- ===== src/Base/Bits.antt =====
-- Single bits of a byte, by tables over all bytes.
use Prim.Native.Nat.{ℕ, zero, suc, ◌+◌, ◌/◌, ◌%◌, ◌^◌, ◌<◌, bit_and, bit_or, bit_xor}
use mathlib.Core.Path.{◌≡◌, refl, sym, ◌∙◌}
use mathlib.Core.Bool.{Bool, true, false, not, ◌&&◌}
use mathlib.Core.Logic.{inl, inr}
use native.Mathlib.Omega.{arith}
use rule_110_arcade.Base.Tests.{
  &&-split, both, Bool-cases, ==→ne, ◌==◌, ltb, ltb→lt, ==_iff, if◌then◌else◌,
}

-- The table of a test on the numbers below a bound.
tabled : (ℕ → Bool) → ℕ → Bool
tabled test zero = true
tabled test (suc top) = let rest = tabled test top in if test top then rest else false

-- A table without a failure answers for its numbers, the top one or one further down.
tabled_at : (test : ℕ → Bool) (top k : ℕ) → k < top → tabled test top ≡ true → test k ≡ true
unfolding tabled
tabled_at test zero k in_table full = absurd (omega arith)
tabled_at test (suc top) k in_table full =
    let (head, tail) = both (test top) (tabled test top) full in
    elim (Bool-cases (k == top)) [
      | inl last ↦ rw ((==_iff k top).0 last) head
      | inr other ↦ tabled_at test top k (omega (arith, ==→ne k top other)) tail
    ]

-- `p` holds of every byte and every bit position.
all_bits : (ℕ → ℕ → Bool) → Bool
unfolding tabled
all_bits p = tabled (λ b. tabled (p b) 8) 256

all_bits_sound : (p : ℕ → ℕ → Bool) (b k : ℕ) → all_bits p ≡ true → b < 256 → k < 8 → p b k ≡ true
unfolding all_bits
all_bits_sound p b k h hb hk = tabled_at (p b) 8 k hk (tabled_at (λ x. tabled (p x) 8) 256 b hb h)

abbrev pub IsByte : ℕ → Type 0
IsByte b = b < 256

-- b & (1 << k) != 0
unfoldable pub test_bit : ℕ → ℕ → Bool
test_bit b k = not (bit_and b (2 ^ k) == 0)

-- b | 1 << k, and b &^ 1 << k, on a byte.
unfoldable pub set_bit : ℕ → ℕ → ℕ
set_bit b k = bit_or b (2 ^ k)

unfoldable pub clear_bit : ℕ → ℕ → ℕ
clear_bit b k = bit_and b (bit_xor 255 (2 ^ k))

bit_eq : Bool → Bool → Bool
bit_eq true b = b
bit_eq false b = not b

bit_eq→eq : (a b : Bool) → bit_eq a b ≡ true → a ≡ b
unfolding bit_eq
bit_eq→eq a b h = ground arith

-- The bit as division reads it.
test_bit_table : all_bits (λ b k. bit_eq (test_bit b k) (b / 2 ^ k % 2 == 1)) ≡ true
unfolding all_bits test_bit bit_eq
test_bit_table = refl

pub test_bit-div : (b k : ℕ) → b < 256 → k < 8 → test_bit b k ≡ (b / 2 ^ k % 2 == 1)
test_bit-div b k hb hk = bit_eq→eq _ _ (all_bits_sound _ b k test_bit_table hb hk)

set_bit_table :
    all_bits (λ b k.
      ltb (set_bit b k) 256
      && tabled (λ j. bit_eq (test_bit (set_bit b k) j) (if j == k then true else test_bit b j)) 8)
    ≡ true
unfolding all_bits tabled test_bit set_bit bit_eq
set_bit_table = refl

pub set_bit-IsByte : (b k : ℕ) → b < 256 → k < 8 → IsByte (set_bit b k)
set_bit-IsByte b k hb hk = ltb→lt _ _ (&&-split _ _ (all_bits_sound _ b k set_bit_table hb hk)).0

pub test_bit-set_bit :
    (b k j : ℕ)
    → b < 256
    → k < 8
    → j < 8
    → test_bit (set_bit b k) j ≡ (if j == k then true else test_bit b j)
test_bit-set_bit b k j hb hk hj =
    bit_eq→eq _ _ (tabled_at _ 8 j hj (&&-split _ _ (all_bits_sound _ b k set_bit_table hb hk)).1)

clear_bit_table :
    all_bits (λ b k.
      ltb (clear_bit b k) 256
      && tabled
          (λ j. bit_eq (test_bit (clear_bit b k) j) (if j == k then false else test_bit b j))
          8)
    ≡ true
unfolding all_bits tabled test_bit clear_bit bit_eq
clear_bit_table = refl

pub clear_bit-IsByte : (b k : ℕ) → b < 256 → k < 8 → IsByte (clear_bit b k)
clear_bit-IsByte b k hb hk =
    ltb→lt _ _ (&&-split _ _ (all_bits_sound _ b k clear_bit_table hb hk)).0

pub test_bit-clear_bit :
    (b k j : ℕ)
    → b < 256
    → k < 8
    → j < 8
    → test_bit (clear_bit b k) j ≡ (if j == k then false else test_bit b j)
test_bit-clear_bit b k j hb hk hj =
    bit_eq→eq _ _ (tabled_at _ 8 j hj (&&-split _ _ (all_bits_sound _ b k clear_bit_table hb hk)).1)

test_bit-zero_table : tabled (λ k. bit_eq (test_bit 0 k) false) 8 ≡ true
unfolding tabled test_bit bit_eq
test_bit-zero_table = refl

pub test_bit-zero : (k : ℕ) → k < 8 → test_bit 0 k ≡ false
test_bit-zero k h = bit_eq→eq _ _ (tabled_at _ 8 k h test_bit-zero_table)

-- The byte that eight bits make up.
weigh : Bool → ℕ → ℕ
weigh true w = w
weigh false w = 0

from_bits : (ℕ → Bool) → ℕ
from_bits f =
    weigh (f 0) 1
    + weigh (f 1) 2
    + weigh (f 2) 4
    + weigh (f 3) 8
    + weigh (f 4) 16
    + weigh (f 5) 32
    + weigh (f 6) 64
    + weigh (f 7) 128

from_bits_table : tabled (λ b. from_bits (test_bit b) == b) 256 ≡ true
unfolding tabled test_bit from_bits weigh
from_bits_table = refl

from_bits-test_bit : (b : ℕ) → b < 256 → from_bits (test_bit b) ≡ b
from_bits-test_bit b h = (==_iff _ b).0 (tabled_at _ 256 b h from_bits_table)

from_bits_ext : (f g : ℕ → Bool) → ((k : ℕ) → k < 8 → f k ≡ g k) → from_bits f ≡ from_bits g
unfolding from_bits
from_bits_ext f g h = rw (
  h 0 (omega arith),
  h 1 (omega arith),
  h 2 (omega arith),
  h 3 (omega arith),
  h 4 (omega arith),
  h 5 (omega arith),
  h 6 (omega arith),
  h 7 (omega arith),
)

-- Bytes with the same eight bits are equal.
pub byte_ext :
    (b c : ℕ) → b < 256 → c < 256 → ((k : ℕ) → k < 8 → test_bit b k ≡ test_bit c k) → b ≡ c
byte_ext b c hb hc h =
    sym (from_bits-test_bit b hb)
    ∙ from_bits_ext (test_bit b) (test_bit c) h
    ∙ from_bits-test_bit c hc

bit_and-one_table : tabled (λ b. bit_and b 1 == b % 2) 256 ≡ true
unfolding tabled
bit_and-one_table = refl

-- b & 1
pub bit_and-one : (b : ℕ) → b < 256 → bit_and b 1 ≡ b % 2
bit_and-one b h = (==_iff _ _).0 (tabled_at _ 256 b h bit_and-one_table)

two_pow_pos_table : tabled (λ k. ltb 0 (2 ^ k)) 8 ≡ true
unfolding tabled
two_pow_pos_table = refl

pub two_pow_pos : (k : ℕ) → k < 8 → 0 < 2 ^ k
two_pow_pos k h = ltb→lt _ _ (tabled_at _ 8 k h two_pow_pos_table)
