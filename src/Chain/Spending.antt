-- ===== src/Chain/Spending.antt =====
-- internal/chain/tips.go and internal/chain/recover.go: the search of a transaction's inputs for one
-- that spends a cell's tip, and of arcade's verdicts for one that accepts.
use rule_110_arcade.Base.{
  ℕ, ◌≡◌, refl, ap, Bool, true, false, Option, none, some, List, [], ◌∷◌, String, any, ◌==◌, str_eq,
  str_eq_iff, ==_iff, if_known,
}
use rule_110_arcade.Chain.{CellChain, Input}
use rule_110_arcade.Chain.Tips.{spends}
use rule_110_arcade.Chain.Oracle.{
  ArcadeStatus, seen_on_network, seen_multiple_nodes, accepted_by_network, mined, immutable,
  rejected, double_spend_attempted, pending_retry, other, is_accepted,
}

-- The input names the tip's output.
pub record IsSpending (tip : CellChain) (i : Input) : Type 0 where
  pub of_tx : i.source_txid ≡ some tip.txid
  pub of_output : i.source_index ≡ tip.vout

-- One of the inputs names the tip's output.
pub data SpendsTip (tip : CellChain) : List Input → Type 0 where
  here : (i : Input) (inputs : List Input) → IsSpending tip i → SpendsTip tip (i ∷ inputs)
  later : (i : Input) (inputs : List Input) → SpendsTip tip inputs → SpendsTip tip (i ∷ inputs)

module _ (tip : CellChain) where
  source-IsSpending :
      (source : Option String) (index : ℕ)
      → spends tip (record { source_txid = source; source_index = index }) ≡ true
      → (source ≡ some tip.txid) × (index ≡ tip.vout)
  unfolding spends
  source-IsSpending none index = λ e. absurd (cc e)
  source-IsSpending (some t) index =
      if_known (λ (b : Bool). b ≡ true → (some t ≡ some tip.txid) × (index ≡ tip.vout))
        (str_eq t tip.txid) (index == tip.vout) false
        (λ same e. (
          ap (λ (x : String). some x) ((str_eq_iff t tip.txid).0 same),
          (==_iff index tip.vout).0 e,
        ))
        (λ _ e. absurd (cc e))

  spends-IsSpending : (i : Input) → spends tip i ≡ true → IsSpending tip i
  spends-IsSpending i e =
      let (a, b) = source-IsSpending i.source_txid i.source_index e in
      record { of_tx = a; of_output = b }

  pub IsSpending-spends : (i : Input) → IsSpending tip i → spends tip i ≡ true
  unfolding spends
  IsSpending-spends i h =
      rw (h.of_tx, (str_eq_iff tip.txid tip.txid).1 refl)
        ((==_iff i.source_index tip.vout).1 h.of_output)

  pub any-SpendsTip : (inputs : List Input) → any (spends tip) inputs ≡ true → SpendsTip tip inputs
  any-SpendsTip [] = λ e. absurd (cc e)
  any-SpendsTip (i ∷ inputs) =
      if_known (λ (b : Bool). b ≡ true → SpendsTip tip (i ∷ inputs)) (spends tip i) true
        (any (spends tip) inputs) (λ first _. here i inputs (spends-IsSpending i first))
        (λ _ e. later i inputs (any-SpendsTip inputs e))

  pub SpendsTip-any : (inputs : List Input) → SpendsTip tip inputs → any (spends tip) inputs ≡ true
  SpendsTip-any _ (here i inputs h) = rw (IsSpending-spends i h) refl
  SpendsTip-any _ (later i inputs h) =
      if_known (λ (b : Bool). b ≡ true) (spends tip i) true (any (spends tip) inputs) (λ _. refl)
        (λ _. SpendsTip-any inputs h)

-- The answers that say that the network took the transaction.
pub data Took : ArcadeStatus → Type 0 where
  took_accepted : Took accepted_by_network
  took_seen : Took seen_on_network
  took_more : Took seen_multiple_nodes
  took_mined : Took mined
  took_immutable : Took immutable

pub is_accepted-Took : (status : ArcadeStatus) → is_accepted status ≡ true → Took status
unfolding is_accepted
is_accepted-Took accepted_by_network e = took_accepted
is_accepted-Took seen_on_network e = took_seen
is_accepted-Took seen_multiple_nodes e = took_more
is_accepted-Took mined e = took_mined
is_accepted-Took immutable e = took_immutable
is_accepted-Took rejected e = cc e
is_accepted-Took double_spend_attempted e = cc e
is_accepted-Took pending_retry e = cc e
is_accepted-Took (other s) e = cc e

pub Took-is_accepted : (status : ArcadeStatus) → Took status → is_accepted status ≡ true
unfolding is_accepted
Took-is_accepted _ took_accepted = refl
Took-is_accepted _ took_seen = refl
Took-is_accepted _ took_more = refl
Took-is_accepted _ took_mined = refl
Took-is_accepted _ took_immutable = refl
