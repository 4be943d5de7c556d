-- ===== src/Watcher/Targets.antt =====
-- internal/watcher/watchset.go: what is watched, built from the channels and from the outputs of
-- commitments. A map from outpoints to targets is the list of its targets, one to an outpoint.
use forktower.Common.{
  ℕ, ◌==◌, Bool, true, false, Option, none, some, List, [], ◌∷◌, ℤ, pos, ltb_ℤ, pos_part,
  if◌then◌else◌,
}
use forktower.ChainView.Types.{Hash}
use forktower.Store.Types.{Relevance, relevant, irrelevant, unknown}
use forktower.Store.Spends.{Outpoint, same_outpoint, WatchOutpoint}
use forktower.Watcher.Types.{Bytes, funding, commitment_output, is_funding, Target}

-- A stored transaction id: 64 characters of hexadecimal, with the number they spell, or any other
-- text.
pub data TxIdText : Type 0 where
  spelled : Hash → TxIdText
  malformed : ℕ → TxIdText

-- The fields of store.Channel that are read here. `close_txid` is what the user's node reported.
pub record Channel : Type 0 where
  pub id : ℤ
  pub funding_txid : TxIdText
  pub funding_vout : ℤ
  pub funding_script : Bytes
  pub relevance : Relevance
  pub close_txid : Option Hash

-- outpointOf; none is its error.
unfoldable pub outpoint_of : TxIdText → ℤ → Option Outpoint
outpoint_of (malformed _) vout = none
outpoint_of (spelled h) vout =
    if ltb_ℤ vout (pos 0)
    then none
    else if h == 0
    then none
    else some (record { hash = h; index = pos_part vout })

unfoldable pub lookup : Outpoint → List Target → Option Target
lookup op [] = none
lookup op (t ∷ ts) = if same_outpoint t.outpoint op then some t else lookup op ts

-- `ws.targets[op] = t`
unfoldable pub put_target : Target → List Target → List Target
put_target t [] = t ∷ []
put_target t (u ∷ us) =
    let rest = put_target t us in if same_outpoint u.outpoint t.outpoint then t ∷ us else u ∷ rest

abbrev pub is_irrelevant : Relevance → Bool
is_irrelevant irrelevant = true
is_irrelevant relevant = false
is_irrelevant unknown = false

abbrev pub funding_target : Channel → Outpoint → Target
funding_target c op = record {
  outpoint = op;
  kind = funding;
  channel_id = c.id;
  role = none;
  source_spend_event_id = pos 0;
  script = c.funding_script;
}

unfoldable pub add_channel_at : Channel → Option Outpoint → List Target → List Target
add_channel_at c none ts = ts
add_channel_at c (some op) ts = put_target (funding_target c op) ts

-- One round of the loop of Build over the channels; a row that cannot be read is skipped.
unfoldable pub add_channel : Channel → List Target → List Target
unfolding add_channel_at
add_channel c ts =
    if is_irrelevant c.relevance
    then ts
    else add_channel_at c (outpoint_of c.funding_txid c.funding_vout) ts

abbrev pub output_target : WatchOutpoint → Target
output_target o = record {
  outpoint = o.outpoint;
  kind = commitment_output;
  channel_id = pos 0;
  role = some o.role;
  source_spend_event_id = o.source_spend_event_id;
  script = o.script;
}

unfoldable pub is_funding_at : Option Target → Bool
is_funding_at none = false
is_funding_at (some t) = is_funding t.kind

-- One round of the loop of Build over the outputs of commitments: one never displaces a channel's
-- funding output, and the empty transaction id is refused.
unfoldable pub add_output : WatchOutpoint → List Target → List Target
unfolding is_funding_at
add_output o ts =
    if o.outpoint.hash == 0
    then ts
    else if is_funding_at (lookup o.outpoint ts)
    then ts
    else put_target (output_target o) ts

unfoldable pub add_channels : List Channel → List Target → List Target
add_channels [] ts = ts
add_channels (c ∷ cs) ts = add_channels cs (add_channel c ts)

unfoldable pub add_outputs : List WatchOutpoint → List Target → List Target
add_outputs [] ts = ts
add_outputs (o ∷ os) ts = add_outputs os (add_output o ts)

-- Build, of what could be read.
unfoldable pub build : List Channel → List WatchOutpoint → List Target
unfolding add_channels add_outputs
build channels outputs = add_outputs outputs (add_channels channels [])
