-- ===== src/Watcher/Sweeping.antt =====
-- internal/watcher/rescan.go: what a range that is queued covers.
use forktower.Common.{◌≡◌, sym, subst, ◌⊎◌, inl, inr, true, Option, none, some, ℤ, ◌≤ℤ◌, arith}
use forktower.Watcher.State.{Watch, Range, pending}
use forktower.Watcher.Sweep.{set_sweep, widened, from_first, queue_range, queue_sweep}

-- A height that the range still has to scan.
abbrev pub InRange : ℤ → Range → Type 0
InRange h s = (s.next ≤ℤ h) × (h ≤ℤ s.target)

widened-covers :
    (from mark h : ℤ) (current s : Range)
    → widened from mark current ≡ some s
    → ((from ≤ℤ h) × (h ≤ℤ mark)) ⊎ ((pending current ≡ true) × InRange h current)
    → InRange h s
unfolding widened
widened-covers from mark h current s e (inl c) = ground arith
widened-covers from mark h current s e (inr c) = ground arith

queue_range-sweep :
    (o : Option Range) (s : Range) (st : Watch)
    → (queue_range o st).0 ≡ some s
    → (o ≡ some s) × ((queue_range o st).1.sweep ≡ s)
unfolding queue_range set_sweep
queue_range-sweep none s st e = cc
queue_range-sweep (some r) s st e = (e, ground arith)

-- A sweep that is queued from a height covers every height from there, or from one where it is
-- lower, to the mark, and every height that the sweep pending before still had to scan.
pub queue_sweep-covers :
    (from h : ℤ) (st : Watch) (s : Range)
    → (queue_sweep from st).0 ≡ some s
    → ((from_first from ≤ℤ h) × (h ≤ℤ st.last.height))
      ⊎ ((pending st.sweep ≡ true) × InRange h st.sweep)
    → InRange h (queue_sweep from st).1.sweep
unfolding queue_sweep
queue_sweep-covers from h st s e c =
    let k = queue_range-sweep (widened (from_first from) st.last.height st.sweep) s st e in
    subst (InRange h) (sym k.1) (widened-covers (from_first from) st.last.height h st.sweep s k.0 c)
