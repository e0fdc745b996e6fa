-- ===== src/Chain/SpentTip/Adopted.antt =====
-- internal/chain/recover.go: on what evidence a transaction that a refusal names becomes a cell's tip.
use rule_110_arcade.Base.{
  ◌<◌, length, arith, str_eq_iff, ◌+◌, ◌≡◌, ◌↔◌, refl, sym, ap, ◌∙◌, Bool, false, Option, some, [],
  ◌∷◌, String, any, ◌==◌, u64, bind-some, guard-some, refuse-some, ==_iff, option_known,
}
use mathlib.Core.Option.{some-injective}
use rule_110_arcade.Ca.{Row}
use rule_110_arcade.Cellscript.{Compiled}
use rule_110_arcade.Chain.{CellChain, Bytes, Tx, Sdk, Ledger}
use rule_110_arcade.Chain.Tips.{parse_tip, spends, derive_tip}
use rule_110_arcade.Chain.Recover.{Recovery, verdict_adopt, halt}
use rule_110_arcade.Chain.Oracle.{ArcadeStatus, is_accepted}
use rule_110_arcade.Chain.Successor.{parse_tip-some}
use rule_110_arcade.Chain.Spending.{
  SpendsTip, any-SpendsTip, SpendsTip-any, Took, is_accepted-Took, Took-is_accepted,
}
use rule_110_arcade.Chain.Derived.{IsCarried, derive_tip-IsCarried}
use rule_110_arcade.Chain.SpentTip.Named.{IsNamedBy, spent_by_lem}
use rule_110_arcade.Chain.SpentTip.{spent_by, hex_string, spent_successor, recover_spent_tip}

abbrev pub adopt : CellChain → Recovery
adopt t = record { verdict = verdict_adopt; tip = t; steps = t ∷ [] }

parse_tip-nonempty :
    (k : Sdk) (txid : String) (raw : Bytes) (tx : Tx)
    → parse_tip k txid raw ≡ some tx
    → 0 < length raw
unfolding parse_tip
parse_tip-nonempty k txid [] tx e = cc e
parse_tip-nonempty k txid (b ∷ raw) tx e = omega arith

parse_tip-made :
    (k : Sdk) (txid : String) (raw : Bytes) (tx : Tx)
    → 0 < length raw
    → k.parse raw ≡ some tx
    → k.tx_id tx ≡ txid
    → parse_tip k txid raw ≡ some tx
unfolding parse_tip
parse_tip-made k txid [] tx l p q = absurd (omega (arith, l))
parse_tip-made k txid (b ∷ raw) tx l p q = rw (p, (str_eq_iff (k.tx_id tx) txid).1 q) refl

module _ (k : Sdk) (l : Ledger) (c : Compiled) (on_record : String → Option Bool)
    (oracle : Option (String → Option ArcadeStatus)) (tip : CellChain) (rejection : Bytes)
    (next : Row) where
  -- The lost transition `t` of the cell.
  pub record IsLost (t : CellChain) : Type 0 where
    pub id : Bytes
    pub raw : Bytes
    pub tx : Tx
    pub get : String → Option ArcadeStatus
    pub status : ArcadeStatus
    pub named : IsNamedBy rejection id
    pub unrecorded : on_record (hex_string id) ≡ some false
    pub held : l.raw_tx (hex_string id) ≡ some raw
    pub nonempty : 0 < length raw
    pub parsed : k.parse raw ≡ some tx
    pub identified : k.tx_id tx ≡ hex_string id
    pub spent : SpendsTip tip tx.inputs
    pub derived :
        derive_tip k c tip.cell (u64 (tip.generation + 1)) next (hex_string id) raw ≡ some t
    pub carried : IsCarried k c tip.cell (u64 (tip.generation + 1)) next (hex_string id) raw t
    pub valued : t.satoshis ≡ tip.satoshis
    pub asked : oracle ≡ some get
    pub answered : get (hex_string id) ≡ some status
    pub accepted : Took status

  spent_successor-IsLost :
      (id : Bytes) (t : CellChain)
      → spent_by rejection ≡ some id
      → spent_successor k l c on_record oracle tip next (hex_string id) ≡ some t
      → IsLost t
  unfolding spent_successor
  spent_successor-IsLost id t named e =
      let (mine, a, e1) = bind-some (on_record (hex_string id)) _ e in
      let (fresh, e2) = refuse-some mine _ e1 in
      let (raw, b, e3) = bind-some (l.raw_tx (hex_string id)) _ e2 in
      let (tx, d, e4) = bind-some (parse_tip k (hex_string id) raw) _ e3 in
      let (spent, e5) = guard-some (any (spends tip) tx.inputs) _ e4 in
      let (adopted, f, e6) =
        bind-some (derive_tip k c tip.cell (u64 (tip.generation + 1)) next (hex_string id) raw) _
          e5 in
      let (value, e7) = guard-some (adopted.satoshis == tip.satoshis) _ e6 in
      let (get, g, e8) = bind-some oracle _ e7 in
      let (status, h, e9) = bind-some (get (hex_string id)) _ e8 in
      let (good, e10) = guard-some (is_accepted status) _ e9 in
      let same = some-injective adopted t e10 in
      record {
        id = id;
        raw = raw;
        tx = tx;
        get = get;
        status = status;
        named = (spent_by_lem rejection id).0 named;
        unrecorded = a ∙ ap some fresh;
        held = b;
        nonempty = parse_tip-nonempty k (hex_string id) raw tx d;
        parsed = (parse_tip-some k (hex_string id) raw tx d).0;
        identified = (parse_tip-some k (hex_string id) raw tx d).1;
        spent = any-SpendsTip tip tx.inputs spent;
        derived = f ∙ ap some same;
        carried =
            derive_tip-IsCarried k c tip.cell (u64 (tip.generation + 1)) next (hex_string id) raw t
              (f ∙ ap some same);
        valued =
            ap (λ (x : CellChain). x.satoshis) (sym same)
            ∙ (==_iff adopted.satoshis tip.satoshis).0 value;
        asked = g;
        answered = h;
        accepted = is_accepted-Took status good;
      }

  IsLost-spent_successor :
      (t : CellChain) (h : IsLost t)
      → spent_successor k l c on_record oracle tip next (hex_string h.id) ≡ some t
  unfolding spent_successor
  IsLost-spent_successor t h =
      rw
        (
          h.unrecorded,
          h.held,
          parse_tip-made k (hex_string h.id) h.raw h.tx h.nonempty h.parsed h.identified,
          SpendsTip-any tip h.tx.inputs h.spent,
          h.derived,
          (==_iff t.satoshis tip.satoshis).1 h.valued,
          h.asked,
          h.answered,
          Took-is_accepted h.status h.accepted,
        )
        refl

  -- A refused cell adopts a transaction exactly if the refusal parses to its name, it is on no record
  -- of ours, the ledger's bytes hash to its id, it spends the tip, it carries the tip's value at the
  -- cell's covenant for the row above, and the network's own answer is that it took it.
  pub recover_spent_tip_lem :
      (t : CellChain)
      → (recover_spent_tip k l c on_record oracle tip rejection next ≡ adopt t) ↔ IsLost t
  unfolding recover_spent_tip
  recover_spent_tip_lem t =
      let P = λ (r : Recovery). r ≡ adopt t → IsLost t in
      let never : P (halt []) = λ e. absurd (cc (ap (λ (r : Recovery). r.verdict) e)) in
      (
        option_known P (spent_by rejection) (halt []) _ never λ id named.
            option_known P (spent_successor k l c on_record oracle tip next (hex_string id))
              (halt []) _ never
              λ adopted found same.
                spent_successor-IsLost id t named (found ∙ ap (λ (r : Recovery). some r.tip) same),
        λ h.
            rw (recover_spent_tip, (spent_by_lem rejection h.id).1 h.named)
              (rw (IsLost-spent_successor t h) refl),
      )
