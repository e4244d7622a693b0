-- ===== src/View/Template/Table.antt =====
-- frontend/src/components/ui/table/index.tsx. A class name that is `undefined` leaves an attribute out, and
-- is spelled out in a template literal.
use guardian_os_ai.Base.{Bool, String, List, [], ◌∷◌, Option, none, some, if◌then◌else◌, ◌^^◌}
use guardian_os_ai.View.Dom.{Node, Attr, class, element_of, option_or}

unfoldable pub spelled_class : Option String → String
spelled_class names = option_or names (λ n. n) "undefined"

abbrev pub class_attr : Option String → List Attr
class_attr none = []
class_attr (some names) = class names ∷ []

unfoldable pub table : Option String → List Node → Node
table names children =
    element_of "table" (class ("min-w-full  " ^^ spelled_class names) ∷ []) children

unfoldable pub table_header : Option String → List Node → Node
table_header names children = element_of "thead" (class_attr names) children

unfoldable pub table_body : Option String → List Node → Node
table_body names children = element_of "tbody" (class_attr names) children

unfoldable pub table_row : Option String → List Node → Node
table_row names children = element_of "tr" (class_attr names) children

unfoldable pub table_cell : Bool → Option String → List Node → Node
table_cell is_header names children =
    element_of (if is_header then "th" else "td") (class (" " ^^ spelled_class names) ∷ []) children
