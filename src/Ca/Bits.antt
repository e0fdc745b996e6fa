-- ===== src/Ca/Bits.antt =====
-- internal/ca/ca.go: reading and writing single cells, and rows as their bits.
use rule_110_arcade.Base.{
  ℕ, ◌+◌, ◌*◌, ◌/◌, ◌%◌, ◌<◌, ◌≡◌, ◌≢◌, sym, ap, ◌∙◌, arith, Bool, true, false, some, length,
  get_or, set, replicate, IsByte, test_bit, set_bit, clear_bit, ◌==◌, if◌then◌else◌,
  get_elem?-get_or, get_or-set_self, get_or-set_ne, get_or-replicate, All-get_or, All-set,
  All-replicate, length-set, List_ext, test_bit-set_bit, test_bit-clear_bit, set_bit-IsByte,
  clear_bit-IsByte, test_bit-zero, byte_ext, inl, inr, Bool-cases, ==_iff, ==→ne,
}
use rule_110_arcade.Ca.{Row, IsRow, cells, get, set_cell}

-- Cell `i` of a row, with `false` beyond its end.
unfoldable pub alive : Row → ℕ → Bool
alive r i = test_bit (get_or r (i / 8) 0) (i % 8)

-- The row that `set_cell` leaves.
unfoldable pub written : Row → ℕ → Bool → Row
written r i true = set r (i / 8) (set_bit (get_or r (i / 8) 0) (i % 8))
written r i false = set r (i / 8) (clear_bit (get_or r (i / 8) 0) (i % 8))

byte_index : (r : Row) (i : ℕ) → i < cells r → i / 8 < length r
unfolding cells
byte_index r i h = omega arith

pub get-alive : (r : Row) (i : ℕ) → i < cells r → get r i ≡ some (alive r i)
unfolding get alive
get-alive r i h = rw (get_elem?-get_or r (i / 8) 0 (byte_index r i h))

pub set_cell-written :
    (r : Row) (i : ℕ) (b : Bool) → i < cells r → set_cell r i b ≡ some (written r i b)
unfolding set_cell written
set_cell-written r i true h = rw (get_elem?-get_or r (i / 8) 0 (byte_index r i h))
set_cell-written r i false h = rw (get_elem?-get_or r (i / 8) 0 (byte_index r i h))

pub cells-written : (r : Row) (i : ℕ) (b : Bool) → cells (written r i b) ≡ cells r
unfolding cells written
cells-written r i true = rw (length-set r (i / 8) (set_bit (get_or r (i / 8) 0) (i % 8)))
cells-written r i false = rw (length-set r (i / 8) (clear_bit (get_or r (i / 8) 0) (i % 8)))

pub length-written : (r : Row) (i : ℕ) (b : Bool) → length (written r i b) ≡ length r
unfolding written
length-written r i true = length-set r (i / 8) (set_bit (get_or r (i / 8) 0) (i % 8))
length-written r i false = length-set r (i / 8) (clear_bit (get_or r (i / 8) 0) (i % 8))

byte_of : (r : Row) (k : ℕ) → IsRow r → get_or r k 0 < 256
byte_of r k h = All-get_or IsByte r k 0 h (omega arith)

pub written-IsRow : (r : Row) (i : ℕ) (b : Bool) → IsRow r → IsRow (written r i b)
unfolding written
written-IsRow r i true h =
    All-set IsByte r (i / 8) _ h (set_bit-IsByte _ (i % 8) (byte_of r (i / 8) h) (omega arith))
written-IsRow r i false h =
    All-set IsByte r (i / 8) _ h (clear_bit-IsByte _ (i % 8) (byte_of r (i / 8) h) (omega arith))

-- A bit of the byte that was written, and a bit of another byte.
written_same :
    (r : Row) (i j : ℕ) (b : Bool)
    → IsRow r
    → i < cells r
    → i / 8 ≡ j / 8
    → alive (written r i b) j ≡ (if j % 8 == i % 8 then b else alive r j)
unfolding written alive
written_same r i j true h hi e =
    rw (← e, get_or-set_self r (i / 8) (set_bit (get_or r (i / 8) 0) (i % 8)) 0 (byte_index r i hi))
      (test_bit-set_bit _ (i % 8) (j % 8) (byte_of r (i / 8) h) (omega arith) (omega arith))
written_same r i j false h hi e =
    rw
      (
        ← e,
        get_or-set_self r (i / 8) (clear_bit (get_or r (i / 8) 0) (i % 8)) 0 (byte_index r i hi),
      )
      (test_bit-clear_bit _ (i % 8) (j % 8) (byte_of r (i / 8) h) (omega arith) (omega arith))

written_other : (r : Row) (i j : ℕ) (b : Bool) → i / 8 ≢ j / 8 → alive (written r i b) j ≡ alive r j
unfolding written alive
written_other r i j true e = rw (get_or-set_ne r (i / 8) (j / 8) _ 0 e)
written_other r i j false e = rw (get_or-set_ne r (i / 8) (j / 8) _ 0 e)

pub alive-written :
    (r : Row) (i j : ℕ) (b : Bool)
    → IsRow r
    → i < cells r
    → alive (written r i b) j ≡ (if j == i then b else alive r j)
alive-written r i j b h hi = elim (Bool-cases (i / 8 == j / 8)) [
  | inl e ↦ ground (arith, written_same r i j b h hi ((==_iff _ _).0 e))
  | inr e ↦ ground (arith, written_other r i j b (==→ne (i / 8) (j / 8) e))
]

pub alive-blank : (n i : ℕ) → alive (replicate n 0) i ≡ false
unfolding alive
alive-blank n i = rw (get_or-replicate {A = ℕ} n 0 (i / 8)) (test_bit-zero (i % 8) (omega arith))

pub blank-IsRow : (n : ℕ) → IsRow (replicate n 0)
blank-IsRow n = All-replicate IsByte n 0 (omega arith)

alive-at : (r : Row) (k j : ℕ) → j < 8 → alive r (k * 8 + j) ≡ test_bit (get_or r k 0) j
unfolding alive
alive-at r k j h =
    let q : (k * 8 + j) / 8 ≡ k = omega arith in
    let m : (k * 8 + j) % 8 ≡ j = omega arith in rw (q, m)

-- Rows of one length with the same cells are equal.
pub Row_ext :
    (r s : Row)
    → IsRow r
    → IsRow s
    → length r ≡ length s
    → ((i : ℕ) → i < cells r → alive r i ≡ alive s i)
    → r ≡ s
unfolding cells
Row_ext r s hr hs e h = List_ext r s e λ k p.
    get_elem?-get_or r k 0 p
    ∙ ap some (
        byte_ext _ _ (byte_of r k hr) (byte_of s k hs)
          (λ j q. sym (alive-at r k j q) ∙ h (k * 8 + j) (omega arith) ∙ alive-at s k j q))
    ∙ sym (get_elem?-get_or s k 0 (omega arith))
