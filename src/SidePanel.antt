-- ===== src/SidePanel.antt =====
-- frontend/src/overrides/stores/use-canvas-side-panel-store.ts: the side panel of the canvas, with
-- the timers that take it away after its closing motion.
pub mod Reachable
pub mod Plain
use canvas_standalone.Prelude.{
  ℕ, suc, String, Bool, true, false, not, ◌||◌, ◌&&◌, Option, none, some, List, [], ◌∷◌,
  if◌then◌else◌, nat_eq, leb, ltb, is_text, ◌-◌,
}

abbrev pub min_width : ℕ
min_width = 220

abbrev pub max_width : ℕ
max_width = 480

abbrev pub default_width : ℕ
default_width = 280

abbrev pub compact_width : ℕ
compact_width = 900

-- `Math.min(max, Math.max(min, stored))`; `none` is an entry that is missing or no number. A number
-- with a fraction, or below 0, is not modelled.
unfoldable pub initial_width : Option ℕ → ℕ
initial_width none = default_width
initial_width (some n) =
    if nat_eq n 0
    then default_width
    else let least = if ltb n min_width then min_width else n in
      if ltb max_width least then max_width else least

-- `stored` is the entry of the browser's storage, `pending` the number of timers that run.
pub record State : Type 0 where
  pub width : ℕ
  pub panel_open : Bool
  pub panel_mounted : Bool
  pub panel_closing : Bool
  pub compact : Bool
  pub stored : Option String
  pub pending : ℕ

abbrev pub desktop_preference_open : Option String → Bool
desktop_preference_open entry = not (is_text entry "0")

unfoldable pub initial : Bool → Option String → Option ℕ → State
initial compact entry width =
    let open_ = not compact && desktop_preference_open entry in
    record {
      width = initial_width width;
      panel_open = open_;
      panel_mounted = open_;
      panel_closing = false;
      compact = compact;
      stored = entry;
      pending = 0;
    }

unfoldable pub set_width : ℕ → State → State
set_width width s = record s { width = width }

unfoldable pub open_panel : State → State
open_panel s = record s {
  stored = some "1";
  panel_open = true;
  panel_mounted = true;
  panel_closing = false;
}

unfoldable pub close_panel : State → State
close_panel s = if not s.panel_mounted || s.panel_closing then s else record s {
  stored = some "0";
  panel_open = false;
  panel_closing = true;
  pending = suc s.pending;
}

abbrev pub less_one : ℕ → ℕ
less_one n = n - 1

-- The callback of a timer.
unfoldable pub motion_ended : State → State
motion_ended s =
    let t = record s { pending = less_one s.pending } in
    if s.panel_closing then record t { panel_mounted = false; panel_closing = false } else t

unfoldable pub toggle_panel : State → State
toggle_panel s = if s.panel_open then close_panel s else open_panel s

abbrev pub same_bool : Bool → Bool → Bool
same_bool true b = b
same_bool false b = not b

unfoldable pub set_responsive_compact : Bool → State → State
set_responsive_compact compact s =
    if same_bool compact s.compact
    then s
    else if compact
    then record s {
      compact = true;
      panel_open = false;
      panel_mounted = false;
      panel_closing = false;
    }
    else (let open_ = desktop_preference_open s.stored in
        record s {
          compact = false;
          panel_open = open_;
          panel_mounted = open_;
          panel_closing = false;
        })
