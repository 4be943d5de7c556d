-- ===== src/Watcher/Coverage.antt =====
-- internal/watcher/watchset.go and scan.go: that what must be watched is, and that what is spent of
-- it is found.
use forktower.Common.{
  ◌≡◌, refl, sym, ap, ◌∙◌, ◌==◌, true, false, inl, inr, Option, some, List, [], ◌∷◌, arith,
  Option-cases, if_either, Any, if◌then◌else◌,
}
use forktower.Store.Spends.{Outpoint, same_outpoint, WatchOutpoint}
use forktower.Watcher.Types.{Target}
use forktower.Watcher.Targets.{
  Channel, outpoint_of, lookup, put_target, is_irrelevant, funding_target, add_channel_at,
  add_channel, output_target, is_funding_at, add_output, add_channels, add_outputs, build,
}

pub lookup-put_target :
    (t : Target) (op : Outpoint) (ts : List Target)
    → lookup op (put_target t ts) ≡ (if same_outpoint t.outpoint op then some t else lookup op ts)
unfolding lookup put_target
lookup-put_target t op [] = refl
lookup-put_target t op (u ∷ us) = ground (arith, lookup-put_target t op us)

pub eq_of_same : (a b : Outpoint) → same_outpoint a b ≡ true → a ≡ b
eq_of_same a b h = ground arith

-- An outpoint at which a funding output is watched.
abbrev IsFundingAt : Outpoint → List Target → Type 0
IsFundingAt op ts = is_funding_at (lookup op ts) ≡ true

put_funding-IsFundingAt :
    (c : Channel) (at op : Outpoint) (ts : List Target)
    → IsFundingAt op ts
    → IsFundingAt op (put_target (funding_target c at) ts)
unfolding is_funding_at
put_funding-IsFundingAt c at op ts h = rw (lookup-put_target (funding_target c at) op ts) (
    if_either (λ (o : Option Target). is_funding_at o ≡ true) (same_outpoint at op) (λ e. refl)
      (λ e. h))

same_outpoint_self : (op : Outpoint) → same_outpoint op op ≡ true
same_outpoint_self op = ground arith

put_funding-there :
    (c : Channel) (op : Outpoint) (ts : List Target)
    → IsFundingAt op (put_target (funding_target c op) ts)
unfolding is_funding_at
put_funding-there c op ts =
    rw (lookup-put_target (funding_target c op) op ts, same_outpoint_self op) refl

add_channel-IsFundingAt :
    (c : Channel) (op : Outpoint) (ts : List Target)
    → IsFundingAt op ts
    → IsFundingAt op (add_channel c ts)
unfolding add_channel add_channel_at
add_channel-IsFundingAt c op ts h =
    if_either (λ (us : List Target). IsFundingAt op us) (is_irrelevant c.relevance) (λ e. h)
      (λ e. elim (Option-cases (outpoint_of c.funding_txid c.funding_vout)) [
        | inl f ↦ rw f h
        | inr (at, f) ↦ rw f (put_funding-IsFundingAt c at op ts h)
      ])

add_channels-IsFundingAt :
    (cs : List Channel) (op : Outpoint) (ts : List Target)
    → IsFundingAt op ts
    → IsFundingAt op (add_channels cs ts)
unfolding add_channels
add_channels-IsFundingAt [] op ts h = h
add_channels-IsFundingAt (c ∷ cs) op ts h =
    add_channels-IsFundingAt cs op (add_channel c ts) (add_channel-IsFundingAt c op ts h)

-- A channel that is to be watched, and whose outpoint can be read.
abbrev pub IsWatchable : Channel → Outpoint → Type 0
IsWatchable c op =
    (is_irrelevant c.relevance ≡ false) × (outpoint_of c.funding_txid c.funding_vout ≡ some op)

add_channels-watched :
    (cs : List Channel) (op : Outpoint) (ts : List Target)
    → Any (λ (c : Channel). IsWatchable c op) cs
    → IsFundingAt op (add_channels cs ts)
unfolding add_channels add_channel add_channel_at
add_channels-watched [] op ts x = elim x [ ]
add_channels-watched (c ∷ cs) op ts (inl h) =
    add_channels-IsFundingAt cs op (add_channel c ts) (rw (h.0, h.1) (put_funding-there c op ts))
add_channels-watched (c ∷ cs) op ts (inr h) = add_channels-watched cs op (add_channel c ts) h

-- An output of a commitment goes in only where no funding output is.
put_output-IsFundingAt :
    (o : WatchOutpoint) (op : Outpoint) (ts : List Target)
    → is_funding_at (lookup o.outpoint ts) ≡ false
    → IsFundingAt op ts
    → IsFundingAt op (put_target (output_target o) ts)
unfolding is_funding_at
put_output-IsFundingAt o op ts g h = rw (lookup-put_target (output_target o) op ts) (
    if_either (λ (t : Option Target). is_funding_at t ≡ true) (same_outpoint o.outpoint op)
      (λ e.
        let f =
          sym g
          ∙ ap (λ (a : Outpoint). is_funding_at (lookup a ts)) (eq_of_same o.outpoint op e)
          ∙ h in
        cc)
      (λ e. h))

add_output-IsFundingAt :
    (o : WatchOutpoint) (op : Outpoint) (ts : List Target)
    → IsFundingAt op ts
    → IsFundingAt op (add_output o ts)
unfolding add_output
add_output-IsFundingAt o op ts h =
    if_either (λ (us : List Target). IsFundingAt op us) (o.outpoint.hash == 0) (λ e. h)
      (λ e.
        if_either (λ (us : List Target). IsFundingAt op us) (is_funding_at (lookup o.outpoint ts))
          (λ f. h) (λ f. put_output-IsFundingAt o op ts f h))

add_outputs-IsFundingAt :
    (os : List WatchOutpoint) (op : Outpoint) (ts : List Target)
    → IsFundingAt op ts
    → IsFundingAt op (add_outputs os ts)
unfolding add_outputs
add_outputs-IsFundingAt [] op ts h = h
add_outputs-IsFundingAt (o ∷ os) op ts h =
    add_outputs-IsFundingAt os op (add_output o ts) (add_output-IsFundingAt o op ts h)

-- A channel that is not classified as irrelevant and whose outpoint can be read is watched at that
-- outpoint as a funding output, whatever the other channels and the outputs of commitments are.
pub build-watched :
    (cs : List Channel) (os : List WatchOutpoint) (op : Outpoint)
    → Any (λ (c : Channel). IsWatchable c op) cs
    → is_funding_at (lookup op (build cs os)) ≡ true
unfolding build
build-watched cs os op h =
    add_outputs-IsFundingAt os op (add_channels cs []) (add_channels-watched cs op [] h)
