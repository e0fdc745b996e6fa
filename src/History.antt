-- ===== src/History.antt =====
-- internal/history/history.go: the tables, and the SQL statements as operations on them. A time is a
-- number, and the operations are those of a database that answers.
pub mod Write
pub mod Delete
pub mod Keys
pub mod Tips
pub mod Rejected
pub mod Election
pub mod Load
pub mod Loaded
use rule_110_arcade.Base.{
  ℕ, ◌≡◌, Bool, true, false, ◌&&◌, Option, none, some, List, [], ◌∷◌, String, ◌==◌, if◌then◌else◌,
  filter, head?, map, str_eq,
}
use rule_110_arcade.Ca.{HexText}

-- The column's texts; `other` is any text that is none of the five.
pub data Status : Type 0 where
  attempting broadcast seen mined failed : Status
  other : String → Status

unfoldable pub is_terminal : Status → Bool
is_terminal mined = true
is_terminal failed = true
is_terminal _ = false

abbrev pub is_attempting : Status → Bool
is_attempting attempting = true
is_attempting _ = false

abbrev pub is_failed : Status → Bool
is_failed failed = true
is_failed _ = false

-- A row of cell_txs.
pub record CellTx : Type 0 where
  pub generation : ℕ
  pub cell : ℕ
  pub txid : String
  pub status : Status
  pub err : String
  pub updated_at : ℕ

-- A row of generations; created_at is never read.
pub record Generation : Type 0 where
  pub number : ℕ
  pub row_hex : HexText

-- A row of leases.
pub record Lease : Type 0 where
  pub name : String
  pub owner : String
  pub expires_at : ℕ

pub record Store : Type 0 where
  pub generations : List Generation
  pub cell_txs : List CellTx
  pub leases : List Lease
  pub postgres : Bool

abbrev pub has_key : ℕ → ℕ → CellTx → Bool
has_key g c t = if t.generation == g then t.cell == c else false

abbrev pub find_key : ℕ → ℕ → List CellTx → Option CellTx
find_key g c [] = none
find_key g c (t ∷ ts) = if has_key g c t then some t else find_key g c ts

pub record CellDetail : Type 0 where
  pub txid : String
  pub status : Status
  pub err : String

detail : CellTx → CellDetail
detail t = record { txid = t.txid; status = t.status; err = t.err }

detail? : Option CellTx → Option CellDetail
unfolding detail
detail? none = none
detail? (some t) = some (detail t)

-- SELECT … WHERE generation = ? AND cell = ?
unfoldable pub cell_at : Store → ℕ → ℕ → Option CellDetail
unfolding detail?
cell_at s generation cell = detail? (find_key generation cell s.cell_txs)

find_generation : ℕ → List Generation → Option HexText
find_generation n [] = none
find_generation n (g ∷ gs) = if g.number == n then some g.row_hex else find_generation n gs

unfoldable pub row_at : Store → ℕ → Option HexText
unfolding find_generation
row_at s number = find_generation number s.generations

has_number : ℕ → List Generation → Bool
has_number n [] = false
has_number n (g ∷ gs) = if g.number == n then true else has_number n gs

-- INSERT … ON CONFLICT (number) DO NOTHING
unfoldable pub record_generation : Store → ℕ → HexText → Store
unfolding has_number
record_generation s number row_hex =
    if has_number number s.generations
    then s
    else record s { generations = record { number = number; row_hex = row_hex } ∷ s.generations }
