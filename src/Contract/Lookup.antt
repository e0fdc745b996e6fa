-- ===== src/Contract/Lookup.antt =====
-- contracts/Cell.runar.go: what the contract reads from a row and looks up in the rule.
use rule_110_arcade.Base.{
  ℕ, ◌/◌, ◌%◌, ◌^◌, ◌<◌, ◌≡◌, refl, sym, ◌∙◌, arith, Bool, true, false, Option, none, some, ◌>>=◌,
  get_or, get_elem?-get_or, All-get_or, IsByte, test_bit-div, bit_and-one, two_pow_pos, ◌==◌,
}
use rule_110_arcade.Base.Int.{ℤ, pos, quot, rem, ◌+ℤ◌, ◌*ℤ◌}
use rule_110_arcade.Ca.{Rule, Row, IsRow, cells, next, to_bit}
use rule_110_arcade.Ca.Bits.{alive}
use rule_110_arcade.Contract.{Runar, IsRunar, Cell, bit_at}

-- The branchless power is the shift that `next` makes.
lookup_next :
    (rule : Rule) (l c r : Bool)
    → rule < 256
    → (quot (pos rule) (
          (pos 1 +ℤ pos 15 *ℤ pos (to_bit l))
          *ℤ (pos 1 +ℤ pos 3 *ℤ pos (to_bit c))
          *ℤ (pos 1 +ℤ pos (to_bit r)))
        >>= λ q. rem q (pos 2))
      ≡ some (pos (next rule (to_bit l) (to_bit c) (to_bit r)))
unfolding next
lookup_next rule true true true h = ground (arith, bit_and-one (rule / 128))
lookup_next rule true true false h = ground (arith, bit_and-one (rule / 64))
lookup_next rule true false true h = ground (arith, bit_and-one (rule / 32))
lookup_next rule true false false h = ground (arith, bit_and-one (rule / 16))
lookup_next rule false true true h = ground (arith, bit_and-one (rule / 8))
lookup_next rule false true false h = ground (arith, bit_and-one (rule / 4))
lookup_next rule false false true h = ground (arith, bit_and-one (rule / 2))
lookup_next rule false false false h = ground (arith, bit_and-one (rule / 1))

bind_assoc :
    {A B C : Type 0} (m : Option A) (f : A → Option B) (g : B → Option C)
    → (m >>= f >>= g) ≡ (m >>= λ x. f x >>= g)
bind_assoc none f g = refl
bind_assoc (some a) f g = refl

pub lookup_then :
    (rule : Rule) (l c r : Bool) (k : ℤ → Option Cell)
    → rule < 256
    → (quot (pos rule) (
          (pos 1 +ℤ pos 15 *ℤ pos (to_bit l))
          *ℤ (pos 1 +ℤ pos 3 *ℤ pos (to_bit c))
          *ℤ (pos 1 +ℤ pos (to_bit r)))
        >>= λ q. rem q (pos 2) >>= k)
      ≡ k (pos (next rule (to_bit l) (to_bit c) (to_bit r)))
lookup_then rule l c r k h =
    sym (bind_assoc _ (λ q. rem q (pos 2)) k) ∙ rw (lookup_next rule l c r h)

-- `next` answers with a bit.
pub next_bit :
    (rule : Rule) (l c r : Bool)
    → rule < 256
    → next rule (to_bit l) (to_bit c) (to_bit r)
      ≡ to_bit (next rule (to_bit l) (to_bit c) (to_bit r) == 1)
unfolding next
next_bit rule true true true h = ground (arith, bit_and-one (rule / 128))
next_bit rule true true false h = ground (arith, bit_and-one (rule / 64))
next_bit rule true false true h = ground (arith, bit_and-one (rule / 32))
next_bit rule true false false h = ground (arith, bit_and-one (rule / 16))
next_bit rule false true true h = ground (arith, bit_and-one (rule / 8))
next_bit rule false true false h = ground (arith, bit_and-one (rule / 4))
next_bit rule false false true h = ground (arith, bit_and-one (rule / 2))
next_bit rule false false false h = ground (arith, bit_and-one (rule / 1))

module _ (r : Runar) (lib : IsRunar r) where
  -- The contract's reading of a bit is the row's.
  pub bit_at-alive :
      (row : Row) (i : ℕ)
      → IsRow row
      → i < cells row
      → bit_at r row (pos (i / 8)) (pos (2 ^ (i % 8))) ≡ some (pos (to_bit (alive row i)))
  unfolding bit_at alive cells
  bit_at-alive row i h hi =
      rw
        (
          lib.substr_one row (i / 8) _ (get_elem?-get_or row (i / 8) 0 (omega arith)),
          lib.cat_append,
          lib.bin2num_padded _ (All-get_or IsByte row (i / 8) 0 h (omega arith)),
        )
        (ground (
          arith,
          two_pow_pos (i % 8) (omega arith),
          test_bit-div (get_or row (i / 8) 0) (i % 8),
          All-get_or IsByte row (i / 8) 0 h,
        ))
