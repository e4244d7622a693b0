-- ===== src/View/Template/Avatar.antt =====
-- frontend/src/components/ui/avatar/Avatar.tsx.
use guardian_os_ai.Base.{Bool, true, false, String, [], ◌∷◌, ◌^^◌}
use guardian_os_ai.View.Dom.{Node, attr, class, element_of, when}

pub data AvatarSize : Type 0 where
  xsmall small medium large xlarge xxlarge : AvatarSize

-- `none` of the source is `no_status`.
pub data Status : Type 0 where
  online offline busy no_status : Status

unfoldable pub size_class : AvatarSize → String
size_class xsmall = "h-6 w-6 max-w-6"
size_class small = "h-8 w-8 max-w-8"
size_class medium = "h-10 w-10 max-w-10"
size_class large = "h-12 w-12 max-w-12"
size_class xlarge = "h-14 w-14 max-w-14"
size_class xxlarge = "h-16 w-16 max-w-16"

unfoldable pub status_size_class : AvatarSize → String
status_size_class xsmall = "h-1.5 w-1.5 max-w-1.5"
status_size_class small = "h-2 w-2 max-w-2"
status_size_class medium = "h-2.5 w-2.5 max-w-2.5"
status_size_class large = "h-3 w-3 max-w-3"
status_size_class xlarge = "h-3.5 w-3.5 max-w-3.5"
status_size_class xxlarge = "h-4 w-4 max-w-4"

unfoldable pub status_color_class : Status → String
status_color_class online = "bg-success-500"
status_color_class offline = "bg-error-400"
status_color_class busy = "bg-warning-500"
status_color_class no_status = ""

unfoldable pub has_status : Status → Bool
has_status no_status = false
has_status _ = true

unfoldable pub avatar : String → String → AvatarSize → Status → Node
avatar src alt size status =
    element_of "div" (class ("relative  rounded-full " ^^ (size_class size)) ∷ []) (
      element_of "img" (attr "src" src ∷ attr "alt" alt ∷ class "object-cover rounded-full" ∷ []) []
      ∷ when (has_status status) (
          element_of "span"
            (class (
                "absolute bottom-0 right-0 rounded-full border-[1.5px] border-white dark:border-gray-900 "
                ^^ (status_size_class size)
                ^^ " "
                ^^ (status_color_class status))
              ∷ [])
            [])
      ∷ [])
