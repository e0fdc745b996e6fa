-- ===== src/Contract.antt =====
-- contracts/Cell.runar.go: the covenant of one cell, as the Go code that it also is. `none` is a
-- failed assertion or a panic.
pub mod Lookup
mod Agreement
pub mod Generation
use rule_110_arcade.Base.{
  ℕ, ◌+◌, ◌≡◌, ◌<◌, Bool, Option, none, some, ◌>>=◌, List, [], ◌∷◌, ◌++◌, length, get_elem?,
  if◌then◌else◌,
}
use rule_110_arcade.Base.Int.{ℤ, pos, ◌+ℤ◌, ◌*ℤ◌, quot, rem, int_eq}

-- What the contract calls of the runar library.
pub record Runar : Type 0 where
  pub substr : List ℕ → ℤ → ℤ → Option (List ℕ)
  pub cat : List ℕ → List ℕ → List ℕ
  pub bin2num : List ℕ → ℤ
  pub len : List ℕ → ℤ

-- The documented behaviour of those calls: Script's substring of one byte, concatenation, length,
-- and little-endian sign-magnitude decoding where the last byte is zero.
pub record IsRunar (r : Runar) : Type 0 where
  pub substr_one :
      (s : List ℕ) (i b : ℕ) → get_elem? s i ≡ some b → r.substr s (pos i) (pos 1) ≡ some (b ∷ [])
  pub cat_append : (s t : List ℕ) → r.cat s t ≡ s ++ t
  pub bin2num_padded : (b : ℕ) → b < 256 → r.bin2num (b ∷ 0 ∷ []) ≡ pos b
  pub len_length : (s : List ℕ) → r.len s ≡ pos (length s)

pub record Cell : Type 0 where
  pub row : List ℕ
  pub byte_l : ℤ
  pub div_l : ℤ
  pub byte_c : ℤ
  pub div_c : ℤ
  pub byte_r : ℤ
  pub div_r : ℤ
  pub row_bytes : ℤ
  pub rule : ℤ

module _ (r : Runar) where
  pub bit_at : List ℕ → ℤ → ℤ → Option ℤ
  bit_at row byte_index div = do
    byte ← r.substr row byte_index (pos 1)
    q ← quot (r.bin2num (r.cat byte (0 ∷ []))) div
    rem q (pos 2)

  -- Each sum and product below is at most 128 in size, so int64 does not overflow.
  unfoldable pub step : Cell → List ℕ → Option Cell
  unfolding bit_at
  step c next_row =
      if int_eq (r.len next_row) c.row_bytes
      then (do
        l ← bit_at c.row c.byte_l c.div_l
        ce ← bit_at c.row c.byte_c c.div_c
        rt ← bit_at c.row c.byte_r c.div_r
        let pow = (pos 1 +ℤ pos 15 *ℤ l) *ℤ (pos 1 +ℤ pos 3 *ℤ ce) *ℤ (pos 1 +ℤ rt)
        q ← quot c.rule pow
        next ← rem q (pos 2)
        claimed ← bit_at next_row c.byte_c c.div_c
        if int_eq claimed next then some (record c { row = next_row }) else none)
      else none
