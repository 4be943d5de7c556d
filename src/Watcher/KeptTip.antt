-- ===== src/Watcher/KeptTip.antt =====
-- internal/watcher: the rows of spends across the handling of a tip.
use forktower.Common.{
  ◌≡◌, refl, subst, ◌==◌, ◌-◌, Bool, true, false, not, ◌||◌, Option, none, some, List, [], ◌∷◌,
  ◌++◌, ℤ, pos, pos_part, leb_ℤ, ltb_ℤ, ◌-ℤ◌, sub32, add32, if_either, some_branch,
}
use forktower.ChainView.Types.{Hash, BlockRef, BlockMeta}
use forktower.Store.Types.{SpendStatus, reorged_out}
use forktower.Store.Spends.{Outpoint, Spend, update_spend_status, list_confirmed}
use forktower.Watcher.State.{Watch, Health, say, known}
use forktower.Watcher.Blocks.{close_standing, ref_of}
use forktower.Watcher.Reorg.{
  Config, Backend, roll_back, roll_back_each, roll_back_above, Walk, attached, lost, too_deep,
  walk_back, deep_reorg, Forward, path, unread, read_forward, process_forward, grew_forward,
  after_walk, still_there, catch_up,
}
use forktower.Watcher.Tip.{
  backend_state, is_replaying, best_height, keep_health, stray_chainstate, close_standing_once,
  own_mark, follow_tip, handle_known, handle_tip,
}
use forktower.Watcher.Kept.{
  has_row, set_status-has_row, Holds, commit_mark-Holds, stall-Holds, process_to-Holds,
}

module _ (id : ℤ) (op : Outpoint) (txid : Hash) where
  update_spend_status-Holds :
      (k : ℤ) (status : SpendStatus) (block : Option Hash) (height : ℤ) (rows rows' : List Spend)
      → update_spend_status k status block height rows ≡ some rows'
      → has_row id op txid rows ≡ true
      → has_row id op txid rows' ≡ true
  unfolding update_spend_status
  update_spend_status-Holds k status block height rows rows' e h =
      subst (λ (rs : List Spend). has_row id op txid rs ≡ true) (some_branch _ e).1
        (set_status-has_row id op txid k status block height rows h)

  roll_back-Holds :
      (b : Backend) (sp : Spend) (o : Option (List Spend)) (st : Watch)
      → update_spend_status sp.id reorged_out sp.block_hash sp.block_height st.spends ≡ o
      → (Holds id op txid) st
      → (Holds id op txid) (roll_back b sp o st)
  unfolding roll_back say Holds
  roll_back-Holds b sp none st e h = h
  roll_back-Holds b sp (some rows) st e h =
      if_either (Holds id op txid) (b.updates_status sp.id)
        (λ f.
          update_spend_status-Holds sp.id reorged_out sp.block_hash sp.block_height st.spends rows e
            h)
        (λ f. h)

  roll_back_each-Holds :
      (b : Backend) (height : ℤ) (sps : List Spend) (st : Watch)
      → (Holds id op txid) st
      → (Holds id op txid) (roll_back_each b height sps st)
  unfolding roll_back_each
  roll_back_each-Holds b height [] st h = h
  roll_back_each-Holds b height (sp ∷ sps) st h = roll_back_each-Holds b height sps _ (
      if_either (Holds id op txid) (leb_ℤ sp.block_height height) (λ e. h)
        (λ e.
          roll_back-Holds b sp
            (update_spend_status sp.id reorged_out sp.block_hash sp.block_height st.spends) st refl
            h))

  roll_back_above-Holds :
      (b : Backend) (height : ℤ) (st : Watch)
      → (Holds id op txid) st
      → (Holds id op txid) (roll_back_above b height st)
  unfolding roll_back_above
  roll_back_above-Holds b height st h =
      if_either (Holds id op txid) b.lists_spends
        (λ e. roll_back_each-Holds b height (list_confirmed st.spends) st h) (λ e. h)

  after_walk-Holds :
      (b : Backend) (tip : BlockMeta) (last : BlockRef) (w : Walk) (st : Watch)
      → (Holds id op txid) st
      → (Holds id op txid) (after_walk b tip last w st)
  unfolding after_walk deep_reorg say Holds
  after_walk-Holds b tip last lost st h = stall-Holds id op txid tip.height st h
  after_walk-Holds b tip last too_deep st h =
      stall-Holds id op txid tip.height (deep_reorg tip st) h
  after_walk-Holds b tip last (attached metas attach) st h =
      process_to-Holds id op txid b.reading metas _ (
        if_either (Holds id op txid) (ltb_ℤ attach.height last.height)
          (λ e. roll_back_above-Holds b attach.height st h) (λ e. h))

  process_forward-Holds :
      (b : Backend) (tip : BlockMeta) (f : Forward) (st : Watch)
      → (Holds id op txid) st
      → (Holds id op txid) (process_forward b tip f st)
  unfolding process_forward
  process_forward-Holds b tip (unread height) st h = stall-Holds id op txid height st h
  process_forward-Holds b tip (path metas) st h =
      process_to-Holds id op txid b.reading (metas ++ tip ∷ []) st h

  catch_up-Holds :
      (b : Backend) (cfg : Config) (tip : BlockMeta) (last : BlockRef) (st : Watch)
      → (Holds id op txid) st
      → (Holds id op txid) (catch_up b cfg tip last st)
  unfolding catch_up grew_forward
  catch_up-Holds b cfg tip last st h =
      if_either (Holds id op txid) (still_there b tip last)
        (λ e.
          if_either (Holds id op txid) (ltb_ℤ cfg.max_forward_gap (sub32 tip.height last.height))
            (λ f.
              commit_mark-Holds id op txid (b.reading.saves_mark (ref_of tip)) (ref_of tip) st h)
            (λ f.
              process_forward-Holds b tip
                (read_forward b (pos_part (tip.height -ℤ last.height) - 1)
                  (add32 last.height (pos 1)))
                st h))
        (λ e. after_walk-Holds b tip last (walk_back b cfg tip last) st h)

  follow_tip-Holds :
      (b : Backend) (cfg : Config) (tip : BlockMeta) (last : BlockRef) (st : Watch)
      → (Holds id op txid) st
      → (Holds id op txid) (follow_tip b cfg tip last st)
  unfolding follow_tip Holds
  follow_tip-Holds b cfg tip last st h =
      if_either (Holds id op txid) (not (known last))
        (λ e. commit_mark-Holds id op txid (b.reading.saves_mark (ref_of tip)) (ref_of tip) st h)
        (λ e.
          if_either (Holds id op txid) (tip.hash == last.hash) (λ f. h)
            (λ f.
              if_either (Holds id op txid) (tip.prev_hash == last.hash)
                (λ i.
                  process_to-Holds id op txid b.reading (tip ∷ [])
                    (record st { blocked_sweep = false }) h)
                (λ i. catch_up-Holds b cfg tip last (record st { blocked_sweep = false }) h)))

  asked-Holds :
      (health : Option Health) (st : Watch)
      → (Holds id op txid) st
      → (Holds id op txid) (close_standing_once (keep_health health st))
  unfolding close_standing_once keep_health close_standing say Holds
  asked-Holds none st h = if_either (Holds id op txid) st.checked_standing (λ e. h) (λ e. h)
  asked-Holds (some health) st h =
      if_either (Holds id op txid) st.checked_standing (λ e. h) (λ e. h)

  handle_known-Holds :
      (b : Backend) (cfg : Config) (health : Option Health) (tip : BlockMeta) (st : Watch)
      → (Holds id op txid) st
      → (Holds id op txid) (handle_known b cfg health tip st)
  unfolding handle_known Holds
  handle_known-Holds b cfg health tip st h =
      if_either (Holds id op txid)
        (is_replaying health || stray_chainstate cfg (best_height health) tip.height)
        (λ e. asked-Holds health st h)
        (λ e.
          follow_tip-Holds b cfg tip (own_mark cfg (best_height health) st.last)
            (record (close_standing_once (keep_health health st)) {
              last = own_mark cfg (best_height health) st.last;
            })
            (asked-Holds health st h))

  handle_tip-Holds :
      (b : Backend) (cfg : Config) (paused : Bool) (now : ℤ) (answer : Option (Bool × ℤ))
      (tip : BlockMeta) (st : Watch)
      → (Holds id op txid) st
      → (Holds id op txid) (handle_tip b cfg paused now answer tip st)
  unfolding handle_tip
  handle_tip-Holds b cfg paused now answer tip st h =
      if_either (Holds id op txid) paused (λ e. h)
        (λ e. handle_known-Holds b cfg (backend_state now answer st.cached) tip st h)

-- Whatever a new tip leads to (a block, a gap, a replaced branch or a failure), a row for a spend
-- keeps its id, its outpoint and its transaction, and none is lost.
pub handle_tip-has_row :
    (b : Backend) (cfg : Config) (paused : Bool) (now : ℤ) (answer : Option (Bool × ℤ))
    (tip : BlockMeta) (st : Watch) (id : ℤ) (op : Outpoint) (txid : Hash)
    → has_row id op txid st.spends ≡ true
    → has_row id op txid (handle_tip b cfg paused now answer tip st).spends ≡ true
unfolding Holds
handle_tip-has_row b cfg paused now answer tip st id op txid h =
    handle_tip-Holds id op txid b cfg paused now answer tip st h
