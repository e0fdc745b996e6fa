-- ===== src/Cellscript/Binding.antt =====
-- internal/cellscript/cellscript.go: a cell's script is read back as the cell and the row it was
-- made from.
use rule_110_arcade.Base.{
  length-append, ℕ, ◌-◌, ◌/◌, ◌<◌, ◌≡◌, ◌↔◌, refl, sym, ap, ◌∙◌, arith, false, Option, some, ◌>>=◌,
  ◌∷◌, ◌++◌, length, take, drop, ltb, ◌==◌, ==_iff, get_elem?, replicate, length-replicate,
  bind-some, guard-some, refuse-some, leb,
}
use mathlib.Core.Path.{subst}
use mathlib.Core.Option.{some-injective}
use rule_110_arcade.Chain.Successor.{equal_sound}
use rule_110_arcade.Ca.{Row, IsRow, HexText, decode_hex, equal, cells}
use rule_110_arcade.Ca.Hex.{decode_hex-hex}
use rule_110_arcade.Cellscript.Amount.{le→ltb-false}
use rule_110_arcade.Cellscript.{Compiled}
use rule_110_arcade.Chain.{Bytes}
use rule_110_arcade.Cellscript.Decode.{
  Artifact, Binding, cell_of, state_suffix_hex, locking_script_hex, binding_index, confirm, decode,
}
use rule_110_arcade.Cellscript.Pieces.{
  lt→leb-false, take-++, drop-++, All-++, hex-++, length-hex, equal_refl, front, get_elem?-++,
  ++-assoc, tail,
}
use rule_110_arcade.Cellscript.Index.{
  IsArtifact, state_suffix_hex-tail, locking_script_hex-code, binding_index-Known, zeros-cells,
}

module _ (a : Artifact) (c : Compiled) (h : IsArtifact a c) where
  script-IsRow : (i : ℕ) (row : Row) → IsRow row → IsRow (h.code i ++ tail h.push row)
  script-IsRow i row r =
      All-++ (h.code i) (tail h.push row) (h.code-IsRow i)
        (omega arith, All-++ h.push row h.push-IsRow r)

  locking_script-bytes :
      (i : ℕ) (row : Row)
      → i < c.cells
      → cells row ≡ c.cells
      → IsRow row
      → (locking_script_hex a c i row >>= decode_hex) ≡ some (h.code i ++ tail h.push row)
  locking_script-bytes i row l e r =
      rw
        (
          locking_script_hex-code a c h i row l e,
          state_suffix_hex-tail a c h row e,
          ← hex-++ (h.code i) (tail h.push row),
        )
        (decode_hex-hex (h.code i ++ tail h.push row) (script-IsRow i row r))

  confirm-script :
      (i : ℕ) (row : Row)
      → i < c.cells
      → cells row ≡ c.cells
      → IsRow row
      → confirm a c (h.code i ++ tail h.push row) (record { cell = i; row = row })
        ≡ some (record { cell = i; row = row })
  unfolding confirm
  confirm-script i row l e r =
      let s = h.code i ++ tail h.push row in
      rw
        (
          locking_script_hex-code a c h i row l e,
          state_suffix_hex-tail a c h row e,
          ← hex-++ (h.code i) (tail h.push row),
          decode_hex-hex s (script-IsRow i row r),
          equal_refl s,
        )
        refl

  -- A script is at least as long as its parts say.
  suffix_length :
      (row : Row)
      → cells row ≡ c.cells
      → length (state_suffix_hex a c (replicate (c.cells / 8) 0)) / 2 ≡ length (tail h.push row)
  unfolding cells
  suffix_length row e =
      let zeros : Row = replicate (c.cells / 8) 0 in
      let z = length-replicate {A = ℕ} (c.cells / 8) 0 in
      let t = length-hex (tail h.push zeros) in
      let u = length-append h.push zeros in
      let v = length-append h.push row in
      rw (state_suffix_hex-tail a c h zeros (zeros-cells c.cells row e))
        (omega (arith, z, t, u, v, e))

  split-row :
      (i : ℕ) (row : Row)
      → cells row ≡ c.cells
      → drop (length (h.code i ++ tail h.push row) - c.cells / 8) (h.code i ++ tail h.push row)
        ≡ row
  unfolding cells
  split-row i row e =
      let head = h.code i ++ (106 ∷ h.push) in
      let len : c.cells / 8 ≡ length row = omega (arith, e) in
      rw (++-assoc (h.code i) (106 ∷ h.push) row, len, front head row) (drop-++ head row)

  decode-script :
      (i : ℕ) (row : Row)
      → i < c.cells
      → cells row ≡ c.cells
      → IsRow row
      → decode a c (h.code i ++ tail h.push row) ≡ some (record { cell = i; row = row })
  unfolding decode cells
  decode-script i row l e r =
      let s = h.code i ++ tail h.push row in
      let (idx, p, q) = binding_index-Known a c h row (omega (arith, l)) e in
      let n = length-append (h.code i) (tail h.push row) in
      let v = length-append h.push row in
      let some_code = h.code-some i in
      let long : leb (length s) (length (tail h.push row)) ≡ false =
        lt→leb-false _ _ (omega (arith, n, some_code)) in
      let wide : ltb (length s) (c.cells / 8) ≡ false =
        le→ltb-false (length s) (c.cells / 8) (omega (arith, n, v, e)) in
      rw
        (
          p,
          suffix_length row e,
          long,
          front (h.code i) (tail h.push row),
          get_elem?-++ (h.code i) 106 (h.push ++ row),
          (==_iff 106 a.op_return).1 (sym h.op_return_is),
          wide,
          take-++ (h.code i) (tail h.push row),
          (q i l).0 l,
          split-row i row e,
        )
        (confirm-script i row l e r)

  confirm_sound :
      (s : Bytes) (b b' : Binding)
      → confirm a c s b ≡ some b'
      → (b ≡ b') × ((locking_script_hex a c b.cell b.row >>= decode_hex) ≡ some s)
  unfolding confirm
  confirm_sound s b b' e =
      let (lock, p, e1) = bind-some (locking_script_hex a c b.cell b.row) _ e in
      let (want, q, e2) = bind-some (decode_hex lock) _ e1 in
      let (same, e3) = guard-some (equal want s) _ e2 in
      (
        some-injective b b' e3,
        ap (λ (o : Option HexText). o >>= decode_hex) p
            ∙ q
            ∙ ap (λ (x : Bytes). some x) (equal_sound want s same),
      )

  decode_sound :
      (s : Bytes) (b : Binding)
      → decode a c s ≡ some b
      → (locking_script_hex a c b.cell b.row >>= decode_hex) ≡ some s
  unfolding decode
  decode_sound s b e =
      let (index, p1, e1) = bind-some (binding_index a c) _ e in
      let suffix = length (state_suffix_hex a c (replicate (c.cells / 8) 0)) / 2 in
      let (p2, e2) = refuse-some (leb (length s) suffix) _ e1 in
      let (op, p3, e3) = bind-some (get_elem? s (length s - suffix)) _ e2 in
      let (p4, e4) = guard-some (op == a.op_return) _ e3 in
      let (p5, e5) = refuse-some (ltb (length s) (c.cells / 8)) _ e4 in
      let (cell, p6, e6) = bind-some (cell_of index (take (length s - suffix) s)) _ e5 in
      let found : Binding = record { cell = cell; row = drop (length s - c.cells / 8) s } in
      let (same, p7) = confirm_sound s found b e6 in
      subst (λ (x : Binding). (locking_script_hex a c x.cell x.row >>= decode_hex) ≡ some s) same p7

  -- For an artifact that keeps `IsArtifact`, a cell of the ring and a row of its length: a script is
  -- read back as that cell and that row exactly if it is their locking script.
  pub decode-locking_script :
      (s : Bytes) (i : ℕ) (row : Row)
      → i < c.cells
      → cells row ≡ c.cells
      → IsRow row
      → (decode a c s ≡ some (record { cell = i; row = row }))
        ↔ ((locking_script_hex a c i row >>= decode_hex) ≡ some s)
  decode-locking_script s i row l e r = (
    decode_sound s (record { cell = i; row = row }),
    λ p.
        let same = some-injective _ s (sym (locking_script-bytes i row l e r) ∙ p) in
        subst (λ (x : Bytes). decode a c x ≡ some (record { cell = i; row = row })) same
          (decode-script i row l e r),
  )
