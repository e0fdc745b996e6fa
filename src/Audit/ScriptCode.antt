-- ===== src/Audit/ScriptCode.antt =====
-- internal/audit/audit.go: `preimageScriptCode` and `varInt` read what a preimage's layout writes.
use rule_110_arcade.Base.{
  ℕ, zero, suc, ◌+◌, ◌/◌, ◌%◌, ◌≤◌, ◌<◌, ◌≡◌, refl, sym, ap, ◌∙◌, arith, true, false, some, List,
  [], ◌∷◌, ◌++◌, length, length-append, take, drop, ltb, leb, ◌==◌, if◌then◌else◌, if_known, ==_iff,
  ltb→lt,
}
use rule_110_arcade.Ca.{IsRow}
use rule_110_arcade.Chain.{Bytes}
use rule_110_arcade.Cellscript.Amount.{little_endian, room, number_loop-little_endian, le→ltb-false}
use rule_110_arcade.Cellscript.Pieces.{take-++, drop-++, ++-assoc, lt→leb-false}
use rule_110_arcade.Audit.Preimage.{long_int, var_int, preimage_script_code}

-- `n` in `k` bytes, the lowest first.
abbrev pub bytes_of : ℕ → ℕ → Bytes
bytes_of zero n = []
bytes_of (suc k) n = (n % 256) ∷ bytes_of k (n / 256)

-- Bitcoin's variable-length integers, as they are written.
abbrev pub put_var_int : ℕ → Bytes
put_var_int n =
    if ltb n 0xfd
    then n ∷ []
    else if ltb n 0x10000
    then 0xfd ∷ bytes_of 2 n
    else if ltb n 0x100000000
    then 0xfe ∷ bytes_of 4 n
    else 0xff ∷ bytes_of 8 n

length-bytes_of : (k n : ℕ) → length (bytes_of k n) ≡ k
length-bytes_of zero n = refl
length-bytes_of (suc k) n = ap suc (length-bytes_of k (n / 256))

bytes_of-IsRow : (k n : ℕ) → IsRow (bytes_of k n)
bytes_of-IsRow zero n = tt
bytes_of-IsRow (suc k) n = (omega arith, bytes_of-IsRow k (n / 256))

little_endian-bytes_of : (k n : ℕ) → n < room k → little_endian (bytes_of k n) ≡ n
little_endian-bytes_of zero n h = omega (arith, h)
little_endian-bytes_of (suc k) n h =
    let e = little_endian-bytes_of k (n / 256) (omega (arith, h)) in omega (arith, e)

long_int-bytes_of :
    (k n : ℕ) (rest : Bytes)
    → k ≤ 8
    → n < room k
    → long_int k (bytes_of k n ++ rest) ≡ some (n, suc k)
unfolding long_int
long_int-bytes_of k n rest h l =
    let len = length-bytes_of k n in
    let all = length-append (bytes_of k n) rest in
    let long = le→ltb-false (length (bytes_of k n ++ rest)) k (omega (arith, len, all)) in
    let front : take k (bytes_of k n ++ rest) ≡ bytes_of k n =
      ap (λ (x : ℕ). take x (bytes_of k n ++ rest)) (sym len) ∙ take-++ (bytes_of k n) rest in
    let value =
      number_loop-little_endian (bytes_of k n) (bytes_of-IsRow k n) (omega (arith, len, h))
      ∙ little_endian-bytes_of k n l in
    rw (long, front, value) refl

pub var_int-put :
    (n : ℕ) (rest : Bytes)
    → n < 0x10000000000000000
    → var_int (put_var_int n ++ rest) ≡ some (n, length (put_var_int n))
unfolding var_int
var_int-put n rest h =
    let P : Bytes → Type 0 = λ b. var_int (b ++ rest) ≡ some (n, length b) in
    if_known P (ltb n 0xfd) (n ∷ []) _ (λ small. rw small refl)
      (λ a.
        if_known P (ltb n 0x10000) (0xfd ∷ bytes_of 2 n) _
          (λ small. long_int-bytes_of 2 n rest (omega arith) (ltb→lt n 0x10000 small))
          (λ b.
            if_known P (ltb n 0x100000000) (0xfe ∷ bytes_of 4 n) (0xff ∷ bytes_of 8 n)
              (λ small. long_int-bytes_of 4 n rest (omega arith) (ltb→lt n 0x100000000 small))
              (λ c. long_int-bytes_of 8 n rest (omega arith) h)))

drop_after {ℓ} : {A : Type ℓ} (n : ℕ) (xs ys : List A) → length xs ≡ n → drop n (xs ++ ys) ≡ ys
drop_after n xs ys e = ap (λ (k : ℕ). drop k (xs ++ ys)) (sym e) ∙ drop-++ xs ys

layout_lem :
    (head size code tail : Bytes)
    → length head ≡ 104
    → length tail ≡ 52
    → 0 < length size
    → var_int (size ++ (code ++ tail)) ≡ some (length code, length size)
    → preimage_script_code (head ++ (size ++ (code ++ tail))) ≡ some code
unfolding preimage_script_code
layout_lem head size code tail hh ht hs read =
    let p = head ++ (size ++ (code ++ tail)) in
    let a = length-append head (size ++ (code ++ tail)) in
    let b = length-append size (code ++ tail) in
    let c = length-append code tail in
    let d = length-append head size in
    let long : leb (length p) 156 ≡ false =
      lt→leb-false (length p) 156 (omega (arith, a, b, c, hh, ht, hs)) in
    let fits = le→ltb-false (length p) (length code) (omega (arith, a, b, c)) in
    let whole : (104 + length size + length code + 52 == length p) ≡ true =
      (==_iff (104 + length size + length code + 52) (length p)).1
        (omega (arith, a, b, c, hh, ht)) in
    let rest : drop (104 + length size) p ≡ code ++ tail =
      ap (drop (104 + length size)) (++-assoc head size (code ++ tail))
      ∙ drop_after (104 + length size) (head ++ size) (code ++ tail) (omega (arith, d, hh)) in
    rw
      (
        long,
        drop_after 104 head (size ++ (code ++ tail)) hh,
        read,
        fits,
        whole,
        rest,
        take-++ code tail,
      )
      refl

length-put_var_int : (n : ℕ) → 0 < length (put_var_int n)
length-put_var_int n = ground arith

-- A preimage of BIP-143's layout, with 104 bytes before the script's length and 52 bytes after the
-- script, is read as that script.
pub preimage_script_code-layout :
    (head code tail : Bytes)
    → length head ≡ 104
    → length tail ≡ 52
    → length code < 0x10000000000000000
    → preimage_script_code (head ++ (put_var_int (length code) ++ (code ++ tail))) ≡ some code
preimage_script_code-layout head code tail hh ht hc =
    layout_lem head (put_var_int (length code)) code tail hh ht (length-put_var_int (length code))
      (var_int-put (length code) (code ++ tail) hc)
