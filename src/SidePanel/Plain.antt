-- ===== src/SidePanel/Plain.antt =====
-- The side panel of frontend/src/overrides/stores/use-canvas-side-panel-store.ts without its motion: a
-- panel that is open or not, with a preference for wide windows.
use canvas_standalone.Prelude.{
  ℕ, ◌<◌, Bool, true, false, not, List, [], ◌∷◌, ◌≡◌, refl, sym, ap, ◌∙◌, inl, inr, Bool-cases,
  if◌then◌else◌, ◌||◌, arith,
}
use canvas_standalone.SidePanel.{
  State, set_width, open_panel, close_panel, motion_ended, toggle_panel, set_responsive_compact,
  desktop_preference_open, same_bool,
}
use canvas_standalone.SidePanel.Reachable.{
  Action, widens, opens, closes, toggles, resizes, act, Reach, acts, fires, IsShown, Reach-IsShown,
}

pub record Plain : Type 0 where
  pub is_open : Bool
  pub preferred : Bool
  pub is_compact : Bool
  pub width : ℕ

-- what the panel promises for an action
abbrev pub plain_act : Action → Plain → Plain
plain_act (widens n) p = record p { width = n }
plain_act opens p = record p { is_open = true; preferred = true }
plain_act closes p = if p.is_open then record p { is_open = false; preferred = false } else p
plain_act toggles p = record p { is_open = not p.is_open; preferred = not p.is_open }
plain_act (resizes b) p =
    if same_bool b p.is_compact
    then p
    else if b
    then record p { is_compact = true; is_open = false }
    else record p { is_compact = false; is_open = p.preferred }

abbrev pub plain_acts : List Action → Plain → Plain
plain_acts [] p = p
plain_acts (a ∷ more) p = plain_acts more (plain_act a p)

abbrev pub plain : State → Plain
plain s = record {
  is_open = s.panel_open;
  preferred = desktop_preference_open s.stored;
  is_compact = s.compact;
  width = s.width;
}

-- a history of actions, with the timers that fire in between
pub data Leads : State → List Action → State → Type 0 where
  here : {s : State} → Leads s [] s
  acted :
      {s t : State} {more : List Action} (a : Action)
      → Leads (act a s) more t
      → Leads s (a ∷ more) t
  fired :
      {s t : State} {more : List Action}
      → 0 < s.pending
      → Leads (motion_ended s) more t
      → Leads s more t

plain-motion_ended : (s : State) → plain (motion_ended s) ≡ plain s
unfolding motion_ended
plain-motion_ended s = elim (Bool-cases s.panel_closing) [ inl e ↦ rw e refl | inr e ↦ rw e refl ]

closes_open :
    (s : State)
    → IsShown s
    → s.panel_open ≡ true
    → plain (close_panel s) ≡ record (plain s) { is_open = false; preferred = false }
unfolding close_panel
closes_open s v e = let (mounted, open_) = v.shown e in rw (mounted, open_, close_panel) refl

stays :
    (s : State) → IsShown s → s.panel_open ≡ false → not s.panel_mounted || s.panel_closing ≡ true
stays s v e = ground (arith, v.gone, v.leaves)

closes_no_more : (s : State) → IsShown s → s.panel_open ≡ false → plain (close_panel s) ≡ plain s
unfolding close_panel
closes_no_more s v e = rw (stays s v e, close_panel) refl

open_case :
    (s : State)
    → s.panel_open ≡ true
    → plain_act closes (plain s) ≡ record (plain s) { is_open = false; preferred = false }
open_case s e = rw e refl

closed_case : (s : State) → s.panel_open ≡ false → plain_act closes (plain s) ≡ plain s
closed_case s e = rw e refl

plain-close_panel : (s : State) → IsShown s → plain (close_panel s) ≡ plain_act closes (plain s)
plain-close_panel s v = elim (Bool-cases s.panel_open) [
  | inl e ↦ closes_open s v e ∙ sym (open_case s e)
  | inr e ↦ closes_no_more s v e ∙ sym (closed_case s e)
]

toggles_open : (s : State) → s.panel_open ≡ true → toggle_panel s ≡ close_panel s
unfolding toggle_panel
toggles_open s e = ap (λ b. if b then close_panel s else open_panel s) e

toggled_plain :
    (s : State) (b : Bool)
    → s.panel_open ≡ b
    → plain_act toggles (plain s) ≡ record (plain s) { is_open = not b; preferred = not b }
toggled_plain s b e = ap (λ c. record (plain s) { is_open = not c; preferred = not c }) e

plain-toggle_panel : (s : State) → IsShown s → plain (toggle_panel s) ≡ plain_act toggles (plain s)
unfolding toggle_panel open_panel
plain-toggle_panel s v = elim (Bool-cases s.panel_open) [
  | inl e ↦ ap plain (toggles_open s e) ∙ (closes_open s v e ∙ sym (toggled_plain s true e))
  | inr e ↦ rw (e, toggle_panel) refl
]

plain-resized :
    (b : Bool) (s : State) → plain (set_responsive_compact b s) ≡ plain_act (resizes b) (plain s)
unfolding set_responsive_compact
plain-resized true s = elim (Bool-cases (same_bool true s.compact)) [
  | inl k ↦ rw (k, set_responsive_compact) refl
  | inr k ↦ rw (k, set_responsive_compact) refl
]
plain-resized false s = elim (Bool-cases (same_bool false s.compact)) [
  | inl k ↦ rw (k, set_responsive_compact) refl
  | inr k ↦ rw (k, set_responsive_compact) refl
]

plain-act : (a : Action) (s : State) → IsShown s → plain (act a s) ≡ plain_act a (plain s)
unfolding act set_width open_panel
plain-act (widens n) s v = refl
plain-act opens s v = refl
plain-act closes s v = plain-close_panel s v
plain-act toggles s v = plain-toggle_panel s v
plain-act (resizes b) s v = plain-resized b s

-- Whatever is done with a panel that the store can reach, and wherever the timers of its closing
-- motion fire in between, it is open, prefers to be open and has the width as a panel without motion
-- that does the same actions: it opens and closes at once, a close of a panel that is not open
-- changes nothing, and a window that grows wide again shows what the last opening or closing left.
pub plain-Leads :
    {s t : State} {more : List Action}
    → Reach s
    → Leads s more t
    → plain t ≡ plain_acts more (plain s)
plain-Leads r here = refl
plain-Leads r (acted {s} {t} {more} a l) =
    plain-Leads (acts a r) l ∙ ap (λ p. plain_acts more p) (plain-act a s (Reach-IsShown r))
plain-Leads r (fired {s} {t} {more} h l) =
    plain-Leads (fires h r) l ∙ ap (λ p. plain_acts more p) (plain-motion_ended s)
