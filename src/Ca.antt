-- ===== src/Ca.antt =====
-- internal/ca/ca.go: the reference automaton on a ring. A row is its bytes, and `none` is the panic
-- of an index out of range.
pub mod Bits
pub mod Step
pub mod Hex
use rule_110_arcade.Base.{
  ℕ, zero, suc, ◌+◌, ◌-◌, ◌*◌, ◌/◌, ◌%◌, ◌^◌, ◌≤◌, ◌<◌, ◌≡◌, Bool, true, false, ◌&&◌, ◌||◌, not,
  Option, none, some, ◌>>=◌, List, [], ◌∷◌, bit_and, length, get_elem?, set, replicate, All, IsByte,
  test_bit, set_bit, clear_bit, leb, ltb, ◌==◌, if◌then◌else◌,
}

-- uint8: the neighbourhood's number is the index of the bit that answers it.
abbrev pub Rule : Type 0
Rule = ℕ

abbrev pub rule110 : Rule
rule110 = 110

-- int(rule>>(4*l+2*c+r)) & 1
unfoldable pub next : Rule → ℕ → ℕ → ℕ → ℕ
next rule l c r = bit_and (rule / 2 ^ (4 * l + 2 * c + r)) 1

abbrev pub Row : Type 0
Row = List ℕ

abbrev pub IsRow : Row → Type 0
IsRow = All IsByte

-- `n%8 != 0 || n <= 0` is the error; a count is not negative here.
unfoldable pub new_row : ℕ → Option Row
new_row n = if n == 0 || not (n % 8 == 0) then none else some (replicate (n / 8) 0)

unfoldable pub cells : Row → ℕ
cells r = length r * 8

unfoldable pub get : Row → ℕ → Option Bool
get r i = do b ← get_elem? r (i / 8); some (test_bit b (i % 8))

write_bit : ℕ → ℕ → Bool → ℕ
write_bit b k true = set_bit b k
write_bit b k false = clear_bit b k

-- `r[i/8] |= …` and `r[i/8] &^= …`
unfoldable pub set_cell : Row → ℕ → Bool → Option Row
unfolding write_bit
set_cell r i alive = do b ← get_elem? r (i / 8); some (set r (i / 8) (write_bit b (i % 8) alive))

-- The loop of `Equal`, after the test of the lengths.
unfoldable pub equal_bytes : Row → Row → Bool
equal_bytes [] [] = true
equal_bytes [] (y ∷ ys) = true
equal_bytes (x ∷ xs) [] = false
equal_bytes (x ∷ xs) (y ∷ ys) = let rest = equal_bytes xs ys in if x == y then rest else false

unfoldable pub equal : Row → Row → Bool
unfolding equal_bytes
equal r other = if length r == length other then equal_bytes r other else false

unfoldable pub left_index : ℕ → ℕ → ℕ
left_index n i = (i + 1) % n

-- ((i-1)%n + n) % n. Go's remainder keeps the sign, so `(0-1)%n` is `-(1%n)`.
unfoldable pub right_index : ℕ → ℕ → ℕ
right_index n i = if i == 0 then (n - 1 % n) % n else ((i - 1) % n + n) % n

abbrev pub to_bit : Bool → ℕ
to_bit true = 1
to_bit false = 0

-- One turn of the loop of `Step`: the bits are read from `row` and written to `out`.
step_cell : Rule → Row → ℕ → ℕ → Row → Option Row
unfolding next get set_cell left_index right_index
step_cell rule row n i out = do
  l ← get row (left_index n i)
  c ← get row i
  r ← get row (right_index n i)
  if next rule (to_bit l) (to_bit c) (to_bit r) == 1 then set_cell out i true else some out

-- `k` turns, from cell `i` on.
step_loop : Rule → Row → ℕ → ℕ → ℕ → Row → Option Row
step_loop rule row n i zero out = some out
step_loop rule row n i (suc k) out = do
  out' ← step_cell rule row n i out
  step_loop rule row n (suc i) k out'

unfoldable pub step : Rule → Row → Option Row
unfolding step_loop step_cell cells
step rule row = step_loop rule row (cells row) 0 (cells row) (replicate (length row) 0)

unfoldable pub seed_single : ℕ → Option Row
unfolding new_row set_cell
seed_single n = do row ← new_row n; set_cell row 0 true

-- hexadecimal text is its code points
abbrev pub HexText : Type 0
HexText = List ℕ

hex_digit : ℕ → ℕ
hex_digit d = if ltb d 10 then b'0' + d else b'a' + (d - 10)

-- encoding/hex writes lower case
unfoldable pub hex : Row → HexText
unfolding hex_digit
hex [] = []
hex (b ∷ r) = hex_digit (b / 16) ∷ hex_digit (b % 16) ∷ hex r

-- … and reads both cases.
digit_value : ℕ → Option ℕ
digit_value c =
    if leb b'0' c && leb c b'9'
    then some (c - b'0')
    else if leb b'a' c && leb c b'f'
    then some (c - b'a' + 10)
    else if leb b'A' c && leb c b'F'
    then some (c - b'A' + 10)
    else none

unfoldable pub decode_hex : HexText → Option Row
unfolding digit_value
decode_hex [] = some []
decode_hex (c ∷ []) = none
decode_hex (c ∷ d ∷ s) = do
  hi ← digit_value c
  lo ← digit_value d
  rest ← decode_hex s
  some ((hi * 16 + lo) ∷ rest)

unfoldable pub seed_hex : ℕ → HexText → Option Row
seed_hex n s =
    if n == 0 || not (n % 8 == 0)
    then none
    else (do b ← decode_hex s; if length b == n / 8 then some b else none)
