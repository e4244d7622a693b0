-- ===== src/Context/Theme.antt =====
-- frontend/src/context/ThemeContext.tsx. The saved theme is cast from any string, so a theme is a
-- string; the page is dark when the class "dark" is on its root element.
use guardian_os_ai.Base.{
  ◌≡◌, refl, ◌↔◌, inl, inr, ℕ, zero, suc, Bool, true, false, String, Option, none, some, str_eq,
  if◌then◌else◌, truthy, eq_iff, Bool-cases,
}
use guardian_os_ai.Platform.{Storage, get_item, set_item, get_item-set_item}

pub record Theme : Type 0 where
  pub theme : String
  pub is_initialized : Bool

pub record Page : Type 0 where
  pub storage : Storage
  pub dark_class : Bool

abbrev pub initial : Theme
initial = record { theme = "dark"; is_initialized = false }

-- `savedTheme || "dark"`
abbrev pub saved_or_dark : Option String → String
saved_or_dark none = "dark"
saved_or_dark (some saved) = if truthy saved then saved else "dark"

-- The first effect, which runs once.
unfoldable pub load_theme : Storage → Theme
load_theme storage = record {
  theme = saved_or_dark (get_item "theme" storage);
  is_initialized = true;
}

-- The second effect, which runs after each render in which the theme or the flag changed.
unfoldable pub sync_page : Theme → Page → Page
sync_page t page =
    if t.is_initialized
    then record {
      storage = set_item "theme" t.theme page.storage;
      dark_class = str_eq t.theme "dark";
    }
    else page

unfoldable pub toggle_theme : Theme → Theme
toggle_theme t = record t { theme = if str_eq t.theme "light" then "dark" else "light" }

-- The provider from its first render on: both effects run, then the second again at each change.
unfoldable pub mount : Page → Theme × Page
unfolding load_theme sync_page
mount page =
    let page' = sync_page initial page in let t = load_theme page'.storage in (t, sync_page t page')

unfoldable pub toggle : Theme × Page → Theme × Page
unfolding toggle_theme sync_page
toggle (t, page) = let t' = toggle_theme t in (t', sync_page t' page)

unfoldable pub toggle_times : ℕ → Theme × Page → Theme × Page
toggle_times zero s = s
toggle_times (suc n) s = toggle_times n (toggle s)

-- What is saved is the theme, and the page is dark exactly in the theme "dark".
pub record IsSynced (s : Theme × Page) : Type 0 where
  pub initialized : s.0.is_initialized ≡ true
  pub saved : get_item "theme" s.1.storage ≡ some s.0.theme
  pub shown : (s.1.dark_class ≡ true) ↔ (s.0.theme ≡ "dark")
  pub named : truthy s.0.theme ≡ true

sync_page-IsSynced :
    (t : Theme) (page : Page)
    → t.is_initialized ≡ true
    → truthy t.theme ≡ true
    → IsSynced (t, sync_page t page)
unfolding sync_page
sync_page-IsSynced t page i n = record {
  initialized = i;
  saved = rw (i, if◌then◌else◌) (get_item-set_item "theme" "theme" t.theme page.storage);
  shown = rw (i, if◌then◌else◌) (eq_iff t.theme "dark");
  named = n;
}

saved_or_dark-truthy : (o : Option String) → truthy (saved_or_dark o) ≡ true
saved_or_dark-truthy none = refl
saved_or_dark-truthy (some s) = elim (Bool-cases (truthy s)) [ inl e ↦ rw e e | inr e ↦ rw e refl ]

toggled_name-truthy : (b : Bool) → truthy (if b then "dark" else "light") ≡ true
toggled_name-truthy true = refl
toggled_name-truthy false = refl

toggle-IsSynced : (s : Theme × Page) → IsSynced s → IsSynced (toggle s)
unfolding toggle toggle_theme
toggle-IsSynced (t, page) h =
    sync_page-IsSynced (toggle_theme t) page h.initialized
      (toggled_name-truthy (str_eq t.theme "light"))

toggle_times-IsSynced : (n : ℕ) (s : Theme × Page) → IsSynced s → IsSynced (toggle_times n s)
unfolding toggle_times
toggle_times-IsSynced zero s h = h
toggle_times-IsSynced (suc n) s h = toggle_times-IsSynced n (toggle s) (toggle-IsSynced s h)

mount-IsSynced : (page : Page) → IsSynced (mount page)
unfolding mount
mount-IsSynced page =
    sync_page-IsSynced (load_theme page.storage) page refl (saved_or_dark-truthy _)

reload : (s : Theme × Page) → IsSynced s → (mount s.1).0.theme ≡ s.0.theme
unfolding mount load_theme
reload s h = rw h.saved (rw h.named refl)

-- After the provider has mounted and the theme has been toggled any number of times: the saved theme
-- is the current one, the page is dark exactly when the theme is "dark", and a page that is loaded
-- again from what was saved starts with the same theme.
pub theme_persists :
    (page : Page) (n : ℕ)
    → let s = toggle_times n (mount page) in IsSynced s × ((mount s.1).0.theme ≡ s.0.theme)
theme_persists page n =
    let h = toggle_times-IsSynced n (mount page) (mount-IsSynced page) in (h, reload _ h)
