-- ===== src/Cellscript/Pieces.antt =====
-- internal/cellscript/cellscript.go: the pieces of a script and their hex texts.
use rule_110_arcade.Base.{
  ℕ, ◌-◌, ◌*◌, ◌<◌, ◌≡◌, ◌≢◌, refl, ap, arith, not, true, false, Option, none, some, List, [], ◌∷◌,
  ◌++◌, length, length-append, leb, take, drop, ltb, ◌==◌, ==_refl, ==_iff, lt→ltb, get_elem?,
  Bool-cases, inl, inr, if_known,
}
use rule_110_arcade.Chain.Successor.{equal_sound}
use rule_110_arcade.Ca.{Row, IsRow, HexText, hex, equal, equal_bytes, cells}
use rule_110_arcade.Cellscript.Amount.{le→ltb-false}
use rule_110_arcade.Cellscript.{Compiled, CtorArgs, ctor_args}
use rule_110_arcade.Chain.{Bytes}
use rule_110_arcade.Cellscript.Decode.{has_suffix, cell_of}

pub take-++ {ℓ} : {A : Type ℓ} (xs ys : List A) → take (length xs) (xs ++ ys) ≡ xs
take-++ [] ys = refl
take-++ (x ∷ xs) ys = ap (λ zs. x ∷ zs) (take-++ xs ys)

pub drop-++ {ℓ} : {A : Type ℓ} (xs ys : List A) → drop (length xs) (xs ++ ys) ≡ ys
drop-++ [] ys = refl
drop-++ (x ∷ xs) ys = drop-++ xs ys

pub lt→leb-false : (a b : ℕ) → b < a → leb a b ≡ false
lt→leb-false a b h = ground arith

pub All-++ : (xs ys : Bytes) → IsRow xs → IsRow ys → IsRow (xs ++ ys)
All-++ [] ys h k = k
All-++ (x ∷ xs) ys (p, h) k = (p, All-++ xs ys h k)

pub hex-++ : (xs ys : Bytes) → hex (xs ++ ys) ≡ hex xs ++ hex ys
unfolding hex
hex-++ [] ys = refl
hex-++ (x ∷ xs) ys = rw (hex-++ xs ys) refl

pub length-hex : (xs : Bytes) → length (hex xs) ≡ 2 * length xs
unfolding hex
length-hex [] = refl
length-hex (x ∷ xs) = let e = length-hex xs in omega (arith, e)

pub equal_bytes_refl : (xs : Bytes) → equal_bytes xs xs ≡ true
unfolding equal_bytes
equal_bytes_refl [] = refl
equal_bytes_refl (x ∷ xs) = rw (==_refl x) (equal_bytes_refl xs)

pub equal_refl : (xs : Bytes) → equal xs xs ≡ true
unfolding equal
equal_refl xs = rw (==_refl (length xs)) (equal_bytes_refl xs)

pub front : {A : Type 0} (xs ys : List A) → length (xs ++ ys) - length ys ≡ length xs
front xs ys = let e = length-append xs ys in omega (arith, e)

pub has_suffix-++ : (xs ys : HexText) → has_suffix (xs ++ ys) ys ≡ true
unfolding has_suffix
has_suffix-++ xs ys =
    let e = length-append xs ys in
    let fits : ltb (length (xs ++ ys)) (length ys) ≡ false =
      le→ltb-false (length (xs ++ ys)) (length ys) (omega (arith, e)) in
    rw (fits, front xs ys, drop-++ xs ys) (equal_refl ys)

pub get_elem?-++ {ℓ} :
    {A : Type ℓ} (xs : List A) (y : A) (ys : List A)
    → get_elem? (xs ++ (y ∷ ys)) (length xs) ≡ some y
get_elem?-++ [] y ys = refl
get_elem?-++ (x ∷ xs) y ys = get_elem?-++ xs y ys

pub ++-assoc : (xs ys zs : Bytes) → xs ++ (ys ++ zs) ≡ (xs ++ ys) ++ zs
++-assoc [] ys zs = refl
++-assoc (x ∷ xs) ys zs = ap (λ (r : Bytes). x ∷ r) (++-assoc xs ys zs)

pub differ : (xs ys : Bytes) → xs ≢ ys → equal xs ys ≡ false
differ xs ys n = elim (Bool-cases (equal xs ys)) [
  | inl same ↦ absurd (n (equal_sound xs ys same))
  | inr other ↦ other
]

pub cell_of-own :
    (code : Bytes) (cell : ℕ) (index : List (Bytes × ℕ))
    → cell_of ((code, cell) ∷ index) code ≡ some cell
unfolding cell_of
cell_of-own code cell index = rw (equal_refl code) refl

pub cell_of-other :
    (key code : Bytes) (cell : ℕ) (index : List (Bytes × ℕ))
    → key ≢ code
    → cell_of ((key, cell) ∷ index) code ≡ cell_of index code
unfolding cell_of
cell_of-other key code cell index n = rw (differ key code n) refl

pub ctor_args-some :
    (c : Compiled) (i : ℕ) (row : Row)
    → i < c.cells
    → cells row ≡ c.cells
    → (args : CtorArgs) × (ctor_args c i row ≡ some args)
unfolding ctor_args
ctor_args-some c i row l e =
    if_known (λ (o : Option CtorArgs). (args : CtorArgs) × (o ≡ some args)) (not (ltb i c.cells))
      none _ (λ bad. absurd (cc (bad, lt→ltb i c.cells l)))
      (λ good.
        if_known (λ (o : Option CtorArgs). (args : CtorArgs) × (o ≡ some args))
          (not (cells row == c.cells)) none _
          (λ bad. absurd (cc (bad, (==_iff (cells row) c.cells).1 e))) (λ same. (_, refl)))

abbrev pub tail : Bytes → Row → Bytes
tail push row = 106 ∷ (push ++ row)
