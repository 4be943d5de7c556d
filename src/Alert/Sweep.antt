-- ===== src/Alert/Sweep.antt =====
-- internal/alert/sweep.go: the warning about a channel that is closed on the user's chain only.
use forktower.Common.{
  Bool, true, false, not, ◌&&◌, Option, none, some, List, [], ◌∷◌, take, any, ℤ, pos, eqb_ℤ,
  if◌then◌else◌,
}
use forktower.Store.Types.{
  Relevance, relevant, irrelevant, unknown, CloseState, open_channel, SpendStatus, mempool,
  confirmed, reorged_out,
}
use forktower.Store.Spends.{Spend, max_spend_limit}
use forktower.Store.Alerts.{Alert}
use forktower.Alert.Policy.{closed_only}
use forktower.Alert.Alerter.{Services, raise}

-- The fields of store.Channel that are read here.
pub record Channel : Type 0 where
  pub id : ℤ
  pub relevance : Relevance
  pub close_state : CloseState

abbrev is_irrelevant : Relevance → Bool
is_irrelevant irrelevant = true
is_irrelevant relevant = false
is_irrelevant unknown = false

abbrev is_open : CloseState → Bool
is_open open_channel = true
is_open _ = false

abbrev is_reorged_out : SpendStatus → Bool
is_reorged_out reorged_out = true
is_reorged_out mempool = false
is_reorged_out confirmed = false

abbrev pub closes_channel : ℤ → Spend → Bool
closes_channel id sp =
    not (eqb_ℤ sp.channel_id (pos 0)) && not (is_reorged_out sp.status) && eqb_ℤ sp.channel_id id

-- Membership in spentOnTheOtherChain, of the rows of the other chain.
unfoldable pub spent_on_the_other_chain : List Spend → ℤ → Bool
spent_on_the_other_chain spends id = any (closes_channel id) (take max_spend_limit spends)

-- The channel is closed on the user's chain, exposed on the other, and not seen spent there.
unfoldable pub is_half_closed : List Spend → Channel → Bool
unfolding spent_on_the_other_chain
is_half_closed spends c =
    not (is_irrelevant c.relevance)
    && not (is_open c.close_state)
    && not (spent_on_the_other_chain spends c.id)

abbrev and_announce : Option Alert → List Alert → List Alert
and_announce none rest = rest
and_announce (some a) rest = a ∷ rest

-- The loop of `sweep`: the rows, and what is announced.
unfoldable pub sweep_channels :
    Services → List Spend → List Channel → List Alert → List Alert × List Alert
unfolding is_half_closed
sweep_channels s spends [] rows = (rows, [])
sweep_channels s spends (c ∷ cs) rows =
    let r = if is_half_closed spends c then raise s (closed_only c.id) rows else (rows, none) in
    let rest = sweep_channels s spends cs r.0 in (rest.0, and_announce r.1 rest.1)

unfoldable pub sweep_with :
    Services → Option (List Spend) → List Channel → List Alert → List Alert × List Alert
unfolding sweep_channels
sweep_with s none channels rows = (rows, [])
sweep_with s (some spends) channels rows = sweep_channels s spends channels rows

-- Alerter.sweep, of what could be read.
unfoldable pub sweep :
    Services → Option (List Channel) → Option (List Spend) → List Alert → List Alert × List Alert
unfolding sweep_with
sweep s none spends rows = (rows, [])
sweep s (some channels) spends rows = sweep_with s spends channels rows
