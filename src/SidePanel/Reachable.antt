-- ===== src/SidePanel/Reachable.antt =====
-- The states that frontend/src/overrides/stores/use-canvas-side-panel-store.ts can be in.
use canvas_standalone.Prelude.{
  ℕ, ◌≤◌, ◌<◌, String, Bool, true, false, Option, ◌≡◌, arith, ◌||◌, ◌&&◌, if◌then◌else◌,
}
use canvas_standalone.SidePanel.{
  State, initial, set_width, open_panel, close_panel, motion_ended, toggle_panel,
  set_responsive_compact,
}

pub data Action : Type 0 where
  widens : ℕ → Action
  opens closes toggles : Action
  resizes : Bool → Action

unfoldable pub act : Action → State → State
act (widens n) s = set_width n s
act opens s = open_panel s
act closes s = close_panel s
act toggles s = toggle_panel s
act (resizes b) s = set_responsive_compact b s

-- A timer fires only where one runs.
pub data Reach : State → Type 0 where
  starts :
      (compact : Bool) (entry : Option String) (width : Option ℕ)
      → Reach (initial compact entry width)
  acts : {s : State} (a : Action) → Reach s → Reach (act a s)
  fires : {s : State} → 0 < s.pending → Reach s → Reach (motion_ended s)

-- An open panel is mounted and not closing; a closing one is mounted, and a timer will take it away; a
-- panel that is neither open nor closing is not mounted.
pub record IsShown (s : State) : Type 0 where
  pub shown : s.panel_open ≡ true → (s.panel_mounted ≡ true) × (s.panel_closing ≡ false)
  pub leaves : s.panel_closing ≡ true → (s.panel_mounted ≡ true) × (0 < s.pending)
  pub gone : s.panel_open ≡ false → s.panel_closing ≡ false → s.panel_mounted ≡ false

initial-IsShown :
    (compact : Bool) (entry : Option String) (width : Option ℕ)
    → IsShown (initial compact entry width)
unfolding initial
initial-IsShown compact entry width = record {
  shown = ground arith;
  leaves = ground arith;
  gone = ground arith;
}

act-IsShown : (a : Action) (s : State) → IsShown s → IsShown (act a s)
unfolding act set_width open_panel close_panel toggle_panel set_responsive_compact
act-IsShown a s v = record {
  shown = ground (arith, v.shown, v.leaves, v.gone);
  leaves = ground (arith, v.shown, v.leaves, v.gone);
  gone = ground (arith, v.shown, v.leaves, v.gone);
}

motion_ended-IsShown : (s : State) → IsShown s → IsShown (motion_ended s)
unfolding motion_ended
motion_ended-IsShown s v = record {
  shown = ground (arith, v.shown, v.leaves, v.gone);
  leaves = ground (arith, v.shown, v.leaves, v.gone);
  gone = ground (arith, v.shown, v.leaves, v.gone);
}

pub Reach-IsShown : {s : State} → Reach s → IsShown s
Reach-IsShown (starts compact entry width) = initial-IsShown compact entry width
Reach-IsShown (acts {s} a r) = act-IsShown a s (Reach-IsShown r)
Reach-IsShown (fires {s} h r) = motion_ended-IsShown s (Reach-IsShown r)

-- In every state that the store can reach, the panel is mounted exactly where it is open or closing,
-- never both, and where it is closing a timer is still to come that takes it away.
pub panel_mounted-Reach :
    {s : State}
    → Reach s
    → (s.panel_mounted ≡ (s.panel_open || s.panel_closing))
      × ((s.panel_open && s.panel_closing) ≡ false)
      × ((if s.panel_closing then 1 else 0) ≤ s.pending)
panel_mounted-Reach r =
    let v = Reach-IsShown r in
    (ground (arith, v.shown, v.leaves, v.gone), ground (arith, v.shown), ground (arith, v.leaves))
