-- ===== src/Platform.antt =====
-- What the browser and the locale decide, taken as a parameter of the definitions that use it: how a
-- date, a fraction or a JSON text is printed, case folding and percent encoding, and where the page
-- was loaded from. `Storage` is `localStorage`, as an association list.
use guardian_os_ai.Base.{
  ℕ, ◌≡◌, refl, String, List, [], ◌∷◌, Option, none, some, str_eq, if◌then◌else◌, arith, eq_iff,
}
use guardian_os_ai.Api.Types.{Json}

pub record Platform : Type 0 where
  -- `new Date(epoch * 1000).toLocaleTimeString(…)`, by the options that the source passes
  pub locale_time : ℕ → String
  pub locale_date_time : ℕ → String
  pub locale_minute : ℕ → String
  pub locale_default_time : ℕ → String
  -- `score.toFixed(digits)`
  pub to_fixed : ℕ → ℕ → String
  -- `JSON.stringify(value)`, and with an indentation of two
  pub stringify : Json → String
  pub stringify_indented : Json → String
  -- the class names that are not empty, joined (the package clsx)
  pub clsx : List String → String
  pub to_lower_case : String → String
  pub encode_uri_component : String → String
  -- `window.location`
  pub protocol : String
  pub host : String
  pub origin : String

abbrev pub Storage : Type 0
Storage = List (String × String)

unfoldable pub get_item : String → Storage → Option String
get_item k [] = none
get_item k ((j, v) ∷ m) = let rest = get_item k m in if str_eq j k then some v else rest

-- A write keeps the place of a key that is there.
unfoldable pub set_item : String → String → Storage → Storage
set_item k v [] = (k, v) ∷ []
set_item k v ((j, w) ∷ m) =
    let rest = set_item k v m in if str_eq j k then (k, v) ∷ m else (j, w) ∷ rest

unfoldable pub remove_item : String → Storage → Storage
remove_item k [] = []
remove_item k ((j, v) ∷ m) =
    let rest = remove_item k m in if str_eq j k then rest else (j, v) ∷ rest

pub get_item-set_item :
    (j k v : String) (m : Storage)
    → get_item j (set_item k v m) ≡ (if str_eq k j then some v else get_item j m)
unfolding get_item set_item
get_item-set_item j k v [] = refl
get_item-set_item j k v ((i, w) ∷ m) =
    ground (arith, eq_iff k j, eq_iff i k, eq_iff i j, get_item-set_item j k v m)

pub get_item-remove_item :
    (j k : String) (m : Storage)
    → get_item j (remove_item k m) ≡ (if str_eq k j then none else get_item j m)
unfolding get_item remove_item
get_item-remove_item j k [] = ground arith
get_item-remove_item j k ((i, w) ∷ m) =
    ground (arith, eq_iff k j, eq_iff i k, eq_iff i j, get_item-remove_item j k m)
