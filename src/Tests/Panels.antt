-- ===== src/Tests/Panels.antt =====
-- A side panel at concrete inputs.
use canvas_standalone.Prelude.{
  false, none, some, ◌≡◌, ◌||◌, ◌&&◌, ◌≤◌, List, [], ◌∷◌, arith, if◌then◌else◌,
}
use canvas_standalone.SidePanel.{
  State, initial, toggle_panel, open_panel, close_panel, motion_ended,
}
use canvas_standalone.SidePanel.Reachable.{
  Action, act, closes, toggles, starts, acts, panel_mounted-Reach,
}
use canvas_standalone.SidePanel.Plain.{Leads, here, acted, fired, plain, plain_acts, plain-Leads}

abbrev leaving : State
leaving = act toggles (initial false none (some 9000))

leaving_mounted :
    (leaving.panel_mounted ≡ (leaving.panel_open || leaving.panel_closing))
    × ((leaving.panel_open && leaving.panel_closing) ≡ false)
    × ((if leaving.panel_closing then 1 else 0) ≤ leaving.pending)
leaving_mounted = panel_mounted-Reach (acts toggles (starts false none (some 9000)))

-- The panel is closed, opened again while it leaves, and closed; then both timers fire.
abbrev hurried : List Action
hurried = toggles ∷ toggles ∷ closes ∷ []

abbrev shown_first : State
shown_first = initial false none none

abbrev gone_last : State
gone_last = motion_ended (motion_ended (act closes (act toggles (act toggles shown_first))))

hurried-Leads : Leads shown_first hurried gone_last
unfolding act initial toggle_panel open_panel close_panel motion_ended
hurried-Leads =
    acted toggles (acted toggles (acted closes (fired (omega arith) (fired (omega arith) here))))

plain-Leads_example : plain gone_last ≡ plain_acts hurried (plain shown_first)
plain-Leads_example = plain-Leads (starts false none none) hurried-Leads
