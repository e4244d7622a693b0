-- ===== src/View/Layout/Active.antt =====
-- The entries of the sidebar that are marked as current.
use text.Mathlib.TextBridge.{IsPrefix}
use text.Mathlib.TextEquality.{starts_with_iff}
use guardian_os_ai.Base.{
  ◌≡◌, ◌≢◌, ◌⊎◌, ◌↔◌, true, String, str_eq, arith, eq_iff, inl, inr, Bool-cases,
}
use guardian_os_ai.View.Layout.Navigation.{is_active}

-- The entry of "/" is marked exactly on the page "/", and any other entry exactly on the pages whose path
-- begins with its own.
pub is_active-Marks :
    (pathname path : String)
    → (is_active pathname path ≡ true)
      ↔ (((path ≡ "/") × (pathname ≡ "/")) ⊎ ((path ≢ "/") × IsPrefix path pathname))
unfolding is_active
is_active-Marks pathname path = elim (Bool-cases (str_eq path "/")) [
  | inl e ↦ rw e (ground (arith, e, eq_iff path "/", eq_iff pathname "/"))
  | inr e ↦ rw e (ground (arith, e, eq_iff path "/", starts_with_iff pathname path))
]
