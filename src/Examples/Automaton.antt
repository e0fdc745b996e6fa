-- ===== src/Examples/Automaton.antt =====
-- The automaton and the covenant on a ring of eight cells, with Script's functions written out.
use rule_110_arcade.Base.{
  suc, ◌-◌, ◌*◌, ◌/◌, ◌%◌, ◌^◌, ◌+◌, if◌then◌else◌, Bool, ℕ, zero, suc, ◌+◌, ◌*◌, ◌%◌, ◌<◌, ◌≡◌,
  ◌≢◌, ◌↔◌, ◌⊎◌, refl, arith, Bool, true, false, Option, none, some, ◌>>=◌, List, [], ◌∷◌, ◌++◌,
  length, get_elem?, take, test_bit, set_bit, drop, leb, if◌then◌else◌, ◌==◌,
}
use mathlib.Core.Option.{some-injective}
use rule_110_arcade.Base.Int.{ℤ, pos, negsuc}
use rule_110_arcade.Ca.{Row, IsRow, rule110, step, get, cells, to_bit}
use rule_110_arcade.Ca.Step.{step-get}
use rule_110_arcade.Cellscript.{Compiled, ctor_args, construct}
use rule_110_arcade.Cellscript.Unlocking.{Script, ScriptChunk, pushed_bytes, script_uint}
use rule_110_arcade.Cellscript.Amount.{IsAmount, script_uint_lem}
use rule_110_arcade.Contract.{Runar, IsRunar, Cell}
use rule_110_arcade.Contract as covenant
use rule_110_arcade.Contract.Generation.{step_covenant, generation_proved, answer}

abbrev magnitude : List ℕ → ℕ
magnitude [] = 0
magnitude (b ∷ []) = b % 128
magnitude (b ∷ c ∷ s) = b + 256 * magnitude (c ∷ s)

abbrev is_negative : List ℕ → Bool
is_negative [] = false
is_negative (b ∷ []) = leb 128 b
is_negative (b ∷ c ∷ s) = is_negative (c ∷ s)

abbrev negated : ℕ → ℤ
negated zero = pos 0
negated (suc n) = negsuc n

abbrev substr : List ℕ → ℤ → ℤ → Option (List ℕ)
substr s (pos i) (pos n) = if leb (i + n) (length s) then some (take n (drop i s)) else none
substr s (pos i) (negsuc n) = none
substr s (negsuc i) n = none

abbrev script : Runar
script = record {
  substr = substr;
  cat = λ s t. s ++ t;
  bin2num = λ s. if is_negative s then negated (magnitude s) else pos (magnitude s);
  len = λ s. pos (length s);
}

take-drop_one : (s : List ℕ) (i b : ℕ) → get_elem? s i ≡ some b → take 1 (drop i s) ≡ b ∷ []
take-drop_one [] i b e = cc
take-drop_one (x ∷ s) zero b e = rw (some-injective x b e) refl
take-drop_one (x ∷ s) (suc i) b e = take-drop_one s i b e

in_range : (s : List ℕ) (i b : ℕ) → get_elem? s i ≡ some b → leb (i + 1) (length s) ≡ true
in_range [] i b e = cc
in_range (x ∷ s) zero b e = ground arith
in_range (x ∷ s) (suc i) b e = ground (arith, in_range s i b e)

script-IsRunar : IsRunar script
script-IsRunar = record {
  substr_one = λ s i b e. rw (in_range s i b e, take-drop_one s i b e) refl;
  cat_append = λ s t. refl;
  bin2num_padded = λ b h. ground arith;
  len_length = λ s. refl;
}

abbrev ring : Compiled
ring = record { cells = 8; rule = rule110 }

abbrev start : Row
start = 19 ∷ []

abbrev after : Row
after = 55 ∷ []

start-step : step rule110 start ≡ some after
unfolding step test_bit set_bit
start-step = refl

start-IsRow : IsRow start
start-IsRow = (omega arith, tt)

after-IsRow : IsRow after
after-IsRow = (omega arith, tt)

start-cells : cells start ≡ 8
unfolding cells
start-cells = refl

step-get_example :
    (out : Row) × (step rule110 start ≡ some out)
    × (length out ≡ 1)
    × ((i : ℕ)
        → i < 8
        → (l c r : Bool) × (get start (if suc i == 8 then 0 else suc i) ≡ some l)
          × (get start i ≡ some c)
          × (get start (if i == 0 then 7 else i - 1) ≡ some r)
          × (get out i ≡ some (110 / 2 ^ (4 * to_bit l + 2 * to_bit c + to_bit r) % 2 == 1)))
step-get_example = step-get rule110 start (omega arith)

generation_proved_example :
    ((i : ℕ) → i < 8 → answer script script-IsRunar ring start after i ≢ none)
    ↔ (step rule110 start ≡ some after)
generation_proved_example =
    generation_proved script script-IsRunar ring start after (omega arith) start-IsRow after-IsRow
      start-cells (omega arith)

after-taken : answer script script-IsRunar ring start after 3 ≢ none
after-taken =
    (generation_proved script script-IsRunar ring start after (omega arith) start-IsRow after-IsRow
        start-cells (omega arith)).1
      start-step 3 (omega arith)

step_covenant_example :
    (out : Row) × (cell : Cell) × (step rule110 start ≡ some out)
    × ((ctor_args ring 3 start >>= construct) ≡ some cell)
    × (((length after ≡ length start)
          × (get after 3 ≡ get out 3)
          × (covenant.step script cell after ≡ some (record cell { row = after })))
        ⊎ ((¬ ((length after ≡ length start) × (get after 3 ≡ get out 3)))
            × (covenant.step script cell after ≡ none)))
step_covenant_example =
    step_covenant script script-IsRunar ring start after 3 (omega arith) start-IsRow after-IsRow
      start-cells (omega arith)

abbrev opcodes : Script
opcodes = record { chunks = λ b. none; op_0 = 0; op_1negate = 79; op_1 = 81; op_16 = 96 }

abbrev thousand : ScriptChunk
thousand = record { op = 2; data_bytes = 232 ∷ 3 ∷ [] }

thousand-IsRow : IsRow (pushed_bytes opcodes thousand)
unfolding pushed_bytes
thousand-IsRow = (omega arith, (omega arith, tt))

script_uint_lem_example :
    (script_uint opcodes thousand ≡ some 1000) ↔ IsAmount (pushed_bytes opcodes thousand) 1000
script_uint_lem_example = script_uint_lem opcodes thousand 1000 thousand-IsRow
