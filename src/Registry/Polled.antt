-- ===== src/Registry/Polled.antt =====
-- internal/registry/registry.go: polls of one channel.
use forktower.Common.{
  ◌≡◌, ◌≢◌, refl, ℕ, ◌≤◌, ◌<◌, Bool, true, false, not, ◌&&◌, Option, none, some, ℤ, pos, ◌<ℤ◌,
  ltb_ℤ, arith, inl, inr, ◌⊎◌, Bool-cases, if◌then◌else◌,
}
use forktower.Store.Types.{CloseState, unset, Relevance, relevant, irrelevant, unknown}
use forktower.Tower.Coverage.{
  ChanType, legacy, static_remote, anchors, taproot, type_unknown, other_type,
}
use forktower.Registry.Relevance.{Reason, open_height_unknown, classify}
use forktower.Registry.Apply.{Poll, relevance_code, same_exposure, apply_to, is_stored, apply}
use forktower.Registry.Merge.{
  Channel, ChannelRecord, first_non_empty, first_non_zero, known_delay, first_known_delay,
  merge_type, merge, close_rank, current_close, advance_close, is_valid_type, polled_facts,
  stored_facts,
}

first_non_empty-again {ℓ} :
    {A : Type ℓ} (a b : Option A) → first_non_empty a (first_non_empty a b) ≡ first_non_empty a b
unfolding first_non_empty
first_non_empty-again none b = refl
first_non_empty-again (some a) b = refl

first_non_zero-again : (a b : ℤ) → first_non_zero a (first_non_zero a b) ≡ first_non_zero a b
unfolding first_non_zero
first_non_zero-again a b = ground arith

known_delay-again : (d : Option ℤ) → known_delay (known_delay d) ≡ known_delay d
unfolding known_delay
known_delay-again none = refl
known_delay-again (some d) = ground arith

first_known_delay-again :
    (a b : Option ℤ) → first_known_delay a (first_known_delay a b) ≡ first_known_delay a b
unfolding first_known_delay first_non_empty known_delay
first_known_delay-again none b = known_delay-again b
first_known_delay-again (some a) b = elim (Bool-cases (ltb_ℤ (pos 0) a)) [
  | inl e ↦ rw (e) refl
  | inr e ↦ rw (e) (known_delay-again b)
]

merge_type-again : (t p : Option ChanType) → merge_type t (some (merge_type t p)) ≡ merge_type t p
unfolding merge_type
merge_type-again none none = refl
merge_type-again none (some p) = refl
merge_type-again (some legacy) p = refl
merge_type-again (some static_remote) p = refl
merge_type-again (some anchors) p = refl
merge_type-again (some taproot) p = refl
merge_type-again (some type_unknown) none = refl
merge_type-again (some type_unknown) (some p) = refl
merge_type-again (some other_type) p = refl

-- The same report again changes nothing in the row that was merged from it.
pub merge-again :
    (prior : Channel) (rec : ChannelRecord) → merge (merge prior rec) rec ≡ merge prior rec
unfolding merge
merge-again prior rec = λ i. record {
  funding_txid = rec.funding_txid;
  funding_vout = rec.funding_vout;
  funding_script_hex = first_non_empty-again rec.funding_script_hex prior.funding_script_hex i;
  capacity_sat = first_non_zero-again rec.capacity_sat prior.capacity_sat i;
  chan_type = some (merge_type-again rec.chan_type prior.chan_type i);
  csv_delay_local = first_known_delay-again rec.csv_delay_local prior.csv_delay_local i;
  csv_delay_remote = first_known_delay-again rec.csv_delay_remote prior.csv_delay_remote i;
  peer_pubkey = first_non_empty-again rec.peer_pubkey prior.peer_pubkey i;
  peer_alias = first_non_empty-again rec.peer_alias prior.peer_alias i;
  open_height = first_non_zero-again rec.open_height prior.open_height i;
  scid = first_non_empty-again rec.scid prior.scid i;
  close_state = unset;
  close_txid = none;
  close_height = pos 0;
  relevance = none;
  relevance_reason = none;
}

-- The close state that is in force after a poll is the stored one, and nothing was published, or it
-- is the one of the record, which was published, is further on, and was written.
pub advance_close-cases :
    (answered : Bool) (rec : ChannelRecord) (prior : Channel)
    → (advance_close answered rec prior ≡ (current_close prior.close_state, false))
      ⊎ (advance_close answered rec prior ≡ (rec.close_state, true))
        × (answered ≡ true)
        × (close_rank (current_close prior.close_state) < close_rank rec.close_state)
unfolding advance_close
advance_close-cases answered rec prior = ground arith

-- The second row has lost nothing that the first one knows: it is closed as far, and each delay, the
-- height and the short id are still known.
pub data Keeps (c d : Channel) : Type 0 where
  keeps :
      close_rank (current_close c.close_state) ≤ close_rank (current_close d.close_state)
      → (known_delay d.csv_delay_local ≡ none → known_delay c.csv_delay_local ≡ none)
      → (known_delay d.csv_delay_remote ≡ none → known_delay c.csv_delay_remote ≡ none)
      → (d.open_height ≡ pos 0 → c.open_height ≡ pos 0)
      → (d.scid ≡ none → c.scid ≡ none)
      → Keeps c d

pub Keeps-refl : (c : Channel) → Keeps c c
Keeps-refl c = keeps (omega arith) (λ e. e) (λ e. e) (λ e. e) (λ e. e)

pub Keeps-trans : (c d e : Channel) → Keeps c d → Keeps d e → Keeps c e
Keeps-trans c d e (keeps p l r h s) (keeps p' l' r' h' s') =
    keeps (omega arith) (λ q. l (l' q)) (λ q. r (r' q)) (λ q. h (h' q)) (λ q. s (s' q))

first_known_delay-none :
    (a b : Option ℤ) → known_delay (first_known_delay a b) ≡ none → known_delay b ≡ none
unfolding first_known_delay first_non_empty known_delay
first_known_delay-none none b e = rw (← known_delay-again b) e
first_known_delay-none (some a) b e = elim (Bool-cases (ltb_ℤ (pos 0) a)) [
  | inl f ↦ ground arith
  | inr f ↦ ground arith
]

first_non_zero-zero : (a b : ℤ) → first_non_zero a b ≡ pos 0 → b ≡ pos 0
unfolding first_non_zero
first_non_zero-zero a b e = ground arith

first_non_empty-none {ℓ} : {A : Type ℓ} (a b : Option A) → first_non_empty a b ≡ none → b ≡ none
unfolding first_non_empty
first_non_empty-none none b e = e
first_non_empty-none (some a) b e = ground arith

current_close-rank : (c : CloseState) → close_rank (current_close c) ≡ close_rank c
unfolding current_close close_rank
current_close-rank c = ground arith

advance_close-further :
    (answered : Bool) (rec : ChannelRecord) (prior : Channel)
    → close_rank (current_close prior.close_state)
      ≤ close_rank (
          current_close
            (if (advance_close answered rec prior).1 then rec.close_state else prior.close_state))
advance_close-further answered rec prior = elim (advance_close-cases answered rec prior) [
  | inl e ↦ rw e (omega arith)
  | inr (e, a, l) ↦ rw (e, current_close-rank rec.close_state) (omega arith)
]

-- The exposure that the column holds, where the one decided is not known for want of a height.
exposure-unknown :
    (r : Option Relevance) (w : Option Reason)
    → (if true && not (same_exposure (unknown, open_height_unknown) r w) then some unknown else r)
      ≡ some unknown
unfolding same_exposure relevance_code
exposure-unknown none w = refl
exposure-unknown (some r) none = refl
exposure-unknown (some relevant) (some w) = refl
exposure-unknown (some irrelevant) (some w) = refl
exposure-unknown (some unknown) (some w) = ground arith

stored-known :
    (fork : ℤ) (c : Channel)
    → pos 0 <ℤ c.open_height
    → (classify (stored_facts true fork c)).0 ≢ unknown
unfolding classify stored_facts
stored-known fork c h = ground arith

module _ (clean : Option ℕ → Option ℕ) where
  pub apply_to-Keeps : (p : Poll) (c : Channel) → Keeps c (apply_to clean p c c)
  unfolding apply_to merge
  apply_to-Keeps p c =
      keeps (advance_close-further p.answers.close p.rec c)
        (first_known_delay-none p.rec.csv_delay_local c.csv_delay_local)
        (first_known_delay-none p.rec.csv_delay_remote c.csv_delay_remote)
        (first_non_zero-zero p.rec.open_height c.open_height)
        (first_non_empty-none p.rec.scid c.scid)

  apply-stored :
      (p : Poll) (c : Channel) → is_stored p c ≡ true → apply clean p c ≡ apply_to clean p c c
  unfolding apply
  apply-stored p c e = rw e refl

  stored-unknown :
      (p : Poll) (c : Channel)
      → p.answers.relevance ≡ true
      → p.fork_known ≡ true
      → p.rec.open_height ≡ pos 0
      → c.close_height ≡ pos 0
      → (apply_to clean p c c).relevance ≡ some unknown
  unfolding apply_to classify polled_facts
  stored-unknown p c r k h z = rw (r, k, h, z) (exposure-unknown c.relevance c.relevance_reason)

  stored-height :
      (p : Poll) (c : Channel)
      → p.rec.open_height ≡ pos 0
      → (apply_to clean p c c).open_height ≡ c.open_height
  unfolding apply_to merge first_non_zero
  stored-height p c h = rw (h) refl

  -- When the separation is known, the write of the row and of the exposure are answered, the node
  -- gives no height, the type that is stored is one of the schema, and the row has a positive
  -- funding height and no height of a close, a poll records the exposure as unknown and keeps the
  -- height, and the facts of the row that it leaves are not classified as unknown.
  pub apply-forgets :
      (p : Poll) (c : Channel)
      → p.answers.upsert ≡ true
      → p.answers.relevance ≡ true
      → p.fork_known ≡ true
      → p.rec.open_height ≡ pos 0
      → is_valid_type (merge c p.rec).chan_type ≡ true
      → pos 0 <ℤ c.open_height
      → c.close_height ≡ pos 0
      → ((apply clean p c).relevance ≡ some unknown)
        × ((apply clean p c).open_height ≡ c.open_height)
        × ((classify (stored_facts true p.fork_height (apply clean p c))).0 ≢ unknown)
  unfolding is_stored
  apply-forgets p c u r k h v g z = rw (apply-stored p c (ground arith)) (
    stored-unknown p c r k h z,
    stored-height p c h,
    stored-known p.fork_height (apply_to clean p c c) (rw (stored-height p c h) g),
  )
