-- ===== src/Chain/Oracle.antt =====
-- internal/chain/recover.go: the network's verdicts, as arcade reports them.
use rule_110_arcade.Base.{Bool, true, false, String}

-- arcade.Status: the constants that the program names, and any other.
pub data ArcadeStatus : Type 0 where
  seen_on_network seen_multiple_nodes accepted_by_network mined immutable : ArcadeStatus
  rejected double_spend_attempted pending_retry : ArcadeStatus
  other : String → ArcadeStatus

unfoldable pub is_accepted : ArcadeStatus → Bool
is_accepted accepted_by_network = true
is_accepted seen_on_network = true
is_accepted seen_multiple_nodes = true
is_accepted mined = true
is_accepted immutable = true
is_accepted _ = false

unfoldable pub refused_by_network : ArcadeStatus → Bool
refused_by_network rejected = true
refused_by_network double_spend_attempted = true
refused_by_network _ = false
