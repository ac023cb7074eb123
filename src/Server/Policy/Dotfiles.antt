-- ===== src/Server/Policy/Dotfiles.antt =====
-- The paths that are denied.
use statika.Prelude.{refl, true, false, [], ◌∷◌, ◌≡◌, arith, ℕ, suc, List, All, ◌↔◌}
use statika.Prelude.Bytes.{Bytes, codes, equal_iff, starts_with}
use statika.Server.Policy.{contains_denied_dotfile, denied_from, is_denied}

abbrev pub IsHidden : Bytes → Type 0
IsHidden component = starts_with (codes ".") component ≡ true

-- No component is hidden, but the first may be `.well-known`.
abbrev pub IsVisible : List Bytes → Type 0
IsVisible [] = Unit {0}
IsVisible (component ∷ components) =
    (IsHidden component → component ≡ codes ".well-known")
    × All (λ later. starts_with (codes ".") later ≡ false) components

later_visible :
    (index : ℕ) (components : List Bytes)
    → (denied_from (suc index) components ≡ false)
      ↔ All (λ later. starts_with (codes ".") later ≡ false) components
unfolding denied_from is_denied
later_visible index [] = (λ _. tt, λ _. refl)
later_visible index (component ∷ components) =
    let (to, from) = later_visible (suc index) components in
    (λ h. (ground arith, to (ground arith)), λ h. ground (arith, from h.1))

-- A path is let through exactly if no component begins with a dot, save that the first one may be
-- `.well-known`.
pub contains_denied_dotfile-IsVisible :
    (components : List Bytes) → (contains_denied_dotfile components ≡ false) ↔ IsVisible components
unfolding contains_denied_dotfile
contains_denied_dotfile-IsVisible [] = (λ _. tt, λ _. refl)
contains_denied_dotfile-IsVisible (component ∷ components) =
    let (to, from) = later_visible 0 components in
    (
      λ h. (λ hidden. ground (arith, equal_iff component (codes ".well-known")), to (ground arith)),
      λ h. ground (arith, from h.1, equal_iff component (codes ".well-known")),
    )
