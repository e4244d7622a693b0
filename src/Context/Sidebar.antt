-- ===== src/Context/Sidebar.antt =====
-- frontend/src/context/SidebarContext.tsx: the sidebar's state. The width is `window.innerWidth`.
use guardian_os_ai.Base.{
  ℕ, ◌≡◌, Bool, true, false, not, String, Option, none, some, str_eq, ltb, if◌then◌else◌, arith,
  List, [], ◌∷◌,
}

pub record Sidebar : Type 0 where
  pub is_expanded : Bool
  pub is_mobile_open : Bool
  pub is_mobile : Bool
  pub is_hovered : Bool
  pub active_item : Option String
  pub open_submenu : Option String

abbrev pub initial : Sidebar
initial = record {
  is_expanded = true;
  is_mobile_open = false;
  is_mobile = false;
  is_hovered = false;
  active_item = none;
  open_submenu = none;
}

-- `handleResize`
unfoldable pub handle_resize : ℕ → Sidebar → Sidebar
handle_resize width s =
    let mobile = ltb width 768 in
    record s { is_mobile = mobile; is_mobile_open = if mobile then s.is_mobile_open else false }

unfoldable pub toggle_sidebar : Sidebar → Sidebar
toggle_sidebar s = record s { is_expanded = not s.is_expanded }

unfoldable pub toggle_mobile_sidebar : Sidebar → Sidebar
toggle_mobile_sidebar s = record s { is_mobile_open = not s.is_mobile_open }

unfoldable pub set_is_hovered : Bool → Sidebar → Sidebar
set_is_hovered b s = record s { is_hovered = b }

unfoldable pub set_active_item : Option String → Sidebar → Sidebar
set_active_item item s = record s { active_item = item }

abbrev pub same_item : Option String → String → Bool
same_item none item = false
same_item (some prev) item = str_eq prev item

unfoldable pub toggle_submenu : String → Sidebar → Sidebar
toggle_submenu item s = record s {
  open_submenu = if same_item s.open_submenu item then none else some item;
}

-- The `isExpanded` that the provider hands out.
unfoldable pub shown_expanded : Sidebar → Bool
shown_expanded s = if s.is_mobile then false else s.is_expanded

pub data Event : Type 0 where
  resized : ℕ → Event
  toggled : Event
  toggled_mobile : Event
  hovered : Bool → Event
  activated : Option String → Event
  toggled_submenu : String → Event

unfoldable pub step : Event → Sidebar → Sidebar
unfolding handle_resize toggle_sidebar toggle_mobile_sidebar set_is_hovered set_active_item
    toggle_submenu
step (resized width) = handle_resize width
step toggled = toggle_sidebar
step toggled_mobile = toggle_mobile_sidebar
step (hovered b) = set_is_hovered b
step (activated item) = set_active_item item
step (toggled_submenu item) = toggle_submenu item

-- The effect calls `handleResize` once when the provider mounts.
unfoldable pub mounted : ℕ → List Event → Sidebar
unfolding step
mounted width [] = handle_resize width initial
mounted width (e ∷ es) = step e (mounted width es)

-- The width of the last resize.
abbrev pub last_width : ℕ → List Event → ℕ
last_width width [] = width
last_width width (resized w ∷ es) = w
last_width width (_ ∷ es) = last_width width es

-- Whether the desktop toggle was pressed an even number of times.
abbrev pub even_toggles : List Event → Bool
even_toggles [] = true
even_toggles (toggled ∷ es) = not (even_toggles es)
even_toggles (_ ∷ es) = even_toggles es

-- Whether the mobile toggle was pressed an odd number of times since the last resize to a desktop
-- width, or since the provider mounted.
abbrev pub odd_mobile_toggles : List Event → Bool
odd_mobile_toggles [] = false
odd_mobile_toggles (toggled_mobile ∷ es) = not (odd_mobile_toggles es)
odd_mobile_toggles (resized w ∷ es) = if ltb w 768 then odd_mobile_toggles es else false
odd_mobile_toggles (_ ∷ es) = odd_mobile_toggles es

-- The sidebar's state is that of its history: it is mobile when the last width is below 768, it
-- counts as expanded when that is not so and the desktop toggle was pressed an even number of times,
-- and its mobile form is open when the mobile toggle was pressed an odd number of times since the
-- last resize to a desktop width.
pub mounted_history :
    (width : ℕ) (es : List Event)
    → let s = mounted width es in
      (s.is_mobile ≡ ltb (last_width width es) 768)
      × (s.is_expanded ≡ even_toggles es)
      × (shown_expanded s ≡ (if ltb (last_width width es) 768 then false else even_toggles es))
      × (s.is_mobile_open ≡ odd_mobile_toggles es)
unfolding mounted shown_expanded
mounted_history width [] = ground arith
mounted_history width (resized w ∷ es) = ground (arith, mounted_history width es)
mounted_history width (toggled ∷ es) = ground (arith, mounted_history width es)
mounted_history width (toggled_mobile ∷ es) = ground (arith, mounted_history width es)
mounted_history width (hovered b ∷ es) = ground (arith, mounted_history width es)
mounted_history width (activated i ∷ es) = ground (arith, mounted_history width es)
mounted_history width (toggled_submenu i ∷ es) = ground (arith, mounted_history width es)
