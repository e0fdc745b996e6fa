-- ===== src/Ca/Hex.antt =====
-- internal/ca/ca.go: a row's hex text determines the row.
use rule_110_arcade.Base.{
  ℕ, ◌/◌, ◌%◌, ◌<◌, ◌≡◌, refl, arith, none, some, [], ◌∷◌, length, ◌==◌, if◌then◌else◌,
}
use rule_110_arcade.Ca.{Row, IsRow, hex_digit, hex, digit_value, decode_hex, seed_hex, cells}

digit_value-hex_digit : (d : ℕ) → d < 16 → digit_value (hex_digit d) ≡ some d
unfolding digit_value hex_digit
digit_value-hex_digit d h = ground arith

pub decode_hex-hex : (r : Row) → IsRow r → decode_hex (hex r) ≡ some r
unfolding decode_hex hex
decode_hex-hex [] h = refl
decode_hex-hex (b ∷ r) h =
    rw
      (
        digit_value-hex_digit (b / 16) (omega arith),
        digit_value-hex_digit (b % 16) (omega arith),
        decode_hex-hex r h.1,
      )
      (ground arith)

-- A row of at least one cell is read back from its hex text, at its own number of cells, and the text
-- is refused at any other number of cells.
pub seed_hex-hex :
    (r : Row) (n : ℕ)
    → IsRow r
    → 0 < length r
    → seed_hex n (hex r) ≡ (if n == cells r then some r else none)
unfolding seed_hex cells
seed_hex-hex r n h p = rw (decode_hex-hex r h) (ground arith)
