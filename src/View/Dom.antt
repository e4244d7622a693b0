-- ===== src/View/Dom.antt =====
-- What a React component returns, as data: elements with their attributes, handlers and children. A
-- handler is the request that it makes of the application (an `Intent`). `Link`, `Outlet` and `Chart`
-- are elements too, as other packages render them.
pub mod Lists
use mathlib.Core.List.{map-append}
use guardian_os_ai.Base.{
  ℕ, Bool, true, false, String, List, [], ◌∷◌, ◌++◌, Option, none, some, map, str_eq, if◌then◌else◌,
  ◌||◌, ◌&&◌, ◌^^◌, truthy,
}
use guardian_os_ai.Api.Types.{Severity, ActionStatus, EventKind, Verdict}

pub data Intent : Type 0 where
  refresh_all : Intent
  ask_approve : String → ℕ → Intent
  ask_reject : String → ℕ → Intent
  ask_rollback : String → Intent
  ask_label : String → Verdict → Intent
  select_report : String → Intent
  filter_severity : Option Severity → Intent
  filter_status : Option ActionStatus → Intent
  filter_kind : String → Intent
  search_for : String → Intent
  show_suspicious : Bool → Intent
  type_token : String → Intent
  save_token clear_token : Intent
  press_sidebar_toggle press_backdrop : Intent
  hover_sidebar : Bool → Intent
  press_theme_toggle : Intent

pub data Attr : Type 0 where
  attr : String → String → Attr
  flag : String → Bool → Attr
  on : String → Intent → Attr
  -- a handler that asks for nothing
  on_nothing : String → Attr
  on_change : (String → Intent) → Attr
  on_check : (Bool → Intent) → Attr

mutual
  pub data Node : Type 0 where
    nothing : Node
    text : String → Node
    head : String → String → Node
    element : String → List Attr → Nodes → Node
    group : Nodes → Node

  pub data Nodes : Type 0 where
    nil : Nodes
    cons : Node → Nodes → Nodes

abbrev pub class : String → Attr
class names = attr "className" names

unfoldable pub nodes : List Node → Nodes
nodes [] = nil
nodes (n ∷ ns) = cons n (nodes ns)

unfoldable pub element_of : String → List Attr → List Node → Node
element_of tag attrs children = element tag attrs (nodes children)

unfoldable pub fragment : List Node → Node
fragment children = group (nodes children)

-- `list.map(view)` among the children.
unfoldable pub each {ℓ} : {A : Type ℓ} → (A → Node) → List A → Node
each view list = group (nodes (map view list))

-- `condition && node`
unfoldable pub when : Bool → Node → Node
when true node = node
when false node = nothing

-- `value && view(value)` on an optional string, which is falsy when it is empty.
unfoldable pub when_text : Option String → (String → Node) → Node
when_text none view = nothing
when_text (some s) view = if truthy s then view s else nothing

-- `node && view(node)` on an optional node.
unfoldable pub when_node : Option Node → (Node → Node) → Node
when_node none view = nothing
when_node (some n) view = view n

unfoldable pub is_disabled : List Attr → Bool
is_disabled [] = false
is_disabled (flag name b ∷ more) = (str_eq name "disabled" && b) || is_disabled more
is_disabled (_ ∷ more) = is_disabled more

unfoldable pub own_clicks : List Attr → List Intent
own_clicks [] = []
own_clicks (on name intent ∷ more) =
    let rest = own_clicks more in if str_eq name "onClick" then intent ∷ rest else rest
own_clicks (_ ∷ more) = own_clicks more

unfoldable pub own_links : List Attr → List String
own_links [] = []
own_links (attr name value ∷ more) =
    let rest = own_links more in if str_eq name "to" then value ∷ rest else rest
own_links (_ ∷ more) = own_links more

-- `value ? view(value) : other`, on an object or a value that may be missing.
unfoldable pub option_or {ℓ} : {A B : Type ℓ} → Option A → (A → B) → B → B
option_or none view other = other
option_or (some a) view other = view a

-- `texts.join(separator)`
unfoldable pub join : String → List String → String
join separator [] = ""
join separator (s ∷ []) = s
join separator (s ∷ t ∷ more) = s ^^ separator ^^ join separator (t ∷ more)

-- What can be asked for by clicking in a node, in document order; a disabled element takes no click.
unfoldable mutual
  pub clicks : Node → List Intent
  clicks nothing = []
  clicks (text s) = []
  clicks (head t d) = []
  clicks (element tag attrs ns) = if is_disabled attrs then [] else own_clicks attrs ++ clicks_in ns
  clicks (group ns) = clicks_in ns

  pub clicks_in : Nodes → List Intent
  clicks_in nil = []
  clicks_in (cons n ns) = clicks n ++ clicks_in ns

-- The routes that the links of a node lead to, in document order.
unfoldable mutual
  pub links : Node → List String
  links nothing = []
  links (text s) = []
  links (head t d) = []
  links (element tag attrs ns) = own_links attrs ++ links_in ns
  links (group ns) = links_in ns

  pub links_in : Nodes → List String
  links_in nil = []
  links_in (cons n ns) = links n ++ links_in ns
