-- ===== src/View/Template/Items.antt =====
-- frontend/src/components/ui/dropdown/DropdownItem.tsx.
use guardian_os_ai.Base.{
  Bool, true, false, String, List, [], ◌∷◌, ◌++◌, Option, none, some, truthy, trim, if◌then◌else◌,
  ◌^^◌,
}
use guardian_os_ai.View.Dom.{Node, Attr, Intent, attr, class, on, element_of}

pub data Tag : Type 0 where
  anchor button : Tag

-- `event.preventDefault()`, which keeps a button from submitting a form.
unfoldable pub prevents_default : Tag → Bool
prevents_default anchor = false
prevents_default button = true

abbrev pub handler : Option Intent → List Attr
handler none = []
handler (some intent) = on "onClick" intent ∷ []

-- `handleClick`: what `onClick` asks for, and then what `onItemClick` asks for.
unfoldable pub handle_click : Option Intent → Option Intent → List Attr
handle_click on_click on_item_click = handler on_click ++ handler on_item_click

unfoldable pub combined_classes : String → String → String
combined_classes base names = trim (base ^^ " " ^^ names)

abbrev pub default_classes : String
default_classes =
    "block w-full text-left px-4 py-2 text-sm text-gray-700 hover:bg-gray-100 hover:text-gray-900"

as_button : String → Option Intent → Option Intent → List Node → Node
unfolding handle_click
as_button names on_click on_item_click children =
    element_of "button" (handle_click on_click on_item_click ++ class names ∷ []) children

as_link : String → String → Option Intent → Option Intent → List Node → Node
unfolding handle_click
as_link to names on_click on_item_click children =
    element_of "Link" (attr "to" to ∷ (class names ∷ handle_click on_click on_item_click)) children

-- A link if the tag is an anchor and there is somewhere to go, and a button otherwise.
unfoldable pub dropdown_item :
    Tag → Option String → Option Intent → Option Intent → String → String → List Node → Node
unfolding as_button as_link combined_classes
dropdown_item anchor (some to) on_click on_item_click base names children =
    if truthy to
    then as_link to (combined_classes base names) on_click on_item_click children
    else as_button (combined_classes base names) on_click on_item_click children
dropdown_item anchor none on_click on_item_click base names children =
    as_button (combined_classes base names) on_click on_item_click children
dropdown_item button to on_click on_item_click base names children =
    as_button (combined_classes base names) on_click on_item_click children
