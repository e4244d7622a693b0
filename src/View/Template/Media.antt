-- ===== src/View/Template/Media.antt =====
-- frontend/src/components/ui/videos and frontend/src/components/ui/images.
use guardian_os_ai.Base.{true, String, [], ◌∷◌, ◌^^◌}
use guardian_os_ai.View.Dom.{Node, attr, flag, class, element_of}

unfoldable pub four_is_to_three : Node
four_is_to_three = element_of "div" (class "aspect-4/3 overflow-hidden rounded-lg" ∷ []) (
    element_of "iframe"
      (attr "src" "https://www.youtube.com/embed/dQw4w9WgXcQ"
        ∷ attr "title" "YouTube video"
        ∷ attr "frameBorder" "0"
        ∷ attr "allow"
            "accelerometer; autoplay; clipboard-write; encrypted-media; gyroscope; picture-in-picture"
        ∷ flag "allowFullScreen" true
        ∷ class "w-full h-full"
        ∷ [])
      []
    ∷ [])

unfoldable pub one_is_to_one : Node
one_is_to_one = element_of "div" (class "overflow-hidden rounded-lg aspect-square" ∷ []) (
    element_of "iframe"
      (attr "src" "https://www.youtube.com/embed/dQw4w9WgXcQ"
        ∷ attr "title" "YouTube video"
        ∷ attr "frameBorder" "0"
        ∷ attr "allow"
            "accelerometer; autoplay; clipboard-write; encrypted-media; gyroscope; picture-in-picture"
        ∷ flag "allowFullScreen" true
        ∷ class "w-full h-full"
        ∷ [])
      []
    ∷ [])

unfoldable pub sixteen_is_to_nine : Node
sixteen_is_to_nine = element_of "div" (class "aspect-4/3 overflow-hidden rounded-lg" ∷ []) (
    element_of "iframe"
      (attr "src" "https://www.youtube.com/embed/dQw4w9WgXcQ"
        ∷ attr "title" "YouTube video"
        ∷ attr "frameBorder" "0"
        ∷ attr "allow"
            "accelerometer; autoplay; clipboard-write; encrypted-media; gyroscope; picture-in-picture"
        ∷ flag "allowFullScreen" true
        ∷ class "w-full h-full"
        ∷ [])
      []
    ∷ [])

unfoldable pub twenty_one_is_to_nine : Node
twenty_one_is_to_nine = element_of "div" (class "aspect-21/9 overflow-hidden rounded-lg" ∷ []) (
    element_of "iframe"
      (attr "src" "https://www.youtube.com/embed/dQw4w9WgXcQ"
        ∷ attr "title" "YouTube video"
        ∷ attr "frameBorder" "0"
        ∷ attr "allow"
            "accelerometer; autoplay; clipboard-write; encrypted-media; gyroscope; picture-in-picture"
        ∷ flag "allowFullScreen" true
        ∷ class "w-full h-full"
        ∷ [])
      []
    ∷ [])

unfoldable pub responsive_image : Node
responsive_image = element_of "div" (class "relative" ∷ []) (
    element_of "div" (class "overflow-hidden" ∷ []) (
      element_of "img"
        (attr "src" "/images/grid-image/image-01.png"
          ∷ attr "alt" "Cover"
          ∷ class "w-full border border-gray-200 rounded-xl dark:border-gray-800"
          ∷ [])
        []
      ∷ [])
    ∷ [])

unfoldable pub two_column_image_grid : Node
two_column_image_grid = element_of "div" (class "grid grid-cols-1 gap-5 sm:grid-cols-2" ∷ []) (
    element_of "div" [] (
      element_of "img"
        (attr "src" "/images/grid-image/image-02.png"
          ∷ attr "alt" " grid"
          ∷ class "border border-gray-200 rounded-xl dark:border-gray-800"
          ∷ [])
        []
      ∷ [])
    ∷ element_of "div" [] (
        element_of "img"
          (attr "src" "/images/grid-image/image-03.png"
            ∷ attr "alt" " grid"
            ∷ class "border border-gray-200 rounded-xl dark:border-gray-800"
            ∷ [])
          []
        ∷ [])
    ∷ [])

unfoldable pub three_column_image_grid : Node
three_column_image_grid =
    element_of "div" (class "grid grid-cols-1 gap-5 sm:grid-cols-2 xl:grid-cols-3" ∷ []) (
      element_of "div" [] (
        element_of "img"
          (attr "src" "/images/grid-image/image-04.png"
            ∷ attr "alt" " grid"
            ∷ class "border border-gray-200 rounded-xl dark:border-gray-800"
            ∷ [])
          []
        ∷ [])
      ∷ element_of "div" [] (
          element_of "img"
            (attr "src" "/images/grid-image/image-05.png"
              ∷ attr "alt" " grid"
              ∷ class "border border-gray-200 rounded-xl dark:border-gray-800"
              ∷ [])
            []
          ∷ [])
      ∷ element_of "div" [] (
          element_of "img"
            (attr "src" "/images/grid-image/image-06.png"
              ∷ attr "alt" " grid"
              ∷ class "border border-gray-200 rounded-xl dark:border-gray-800"
              ∷ [])
            []
          ∷ [])
      ∷ [])

unfoldable pub aspect_ratio_video : String → String → String → Node
aspect_ratio_video video_url aspect_ratio title =
    element_of "div" (class ("aspect-" ^^ aspect_ratio ^^ " overflow-hidden rounded-lg") ∷ []) (
      element_of "iframe"
        (attr "src" video_url
          ∷ attr "title" title
          ∷ attr "frameBorder" "0"
          ∷ attr "allow"
              "accelerometer; autoplay; clipboard-write; encrypted-media; gyroscope; picture-in-picture"
          ∷ flag "allowFullScreen" true
          ∷ class "w-full h-full"
          ∷ [])
        []
      ∷ [])
