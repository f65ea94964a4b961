-- ===== src/Theme.antt =====
-- lib/theme.tsx: the theme that is stored in the browser and read back when the page is opened.
mod Tests
use sensepro.Prelude.{
  ◌≡◌, refl, ◌≢◌, String, Bool, true, false, ◌||◌, Option, none, some, str_eq, if◌then◌else◌, arith,
}

pub data Theme : Type 0 where
  light dark : Theme

-- The text of a theme, as it is stored.
abbrev pub text_of : Theme → String
text_of light = "light"
text_of dark = "dark"

-- What the window holds: the entry of the storage, and whether the system prefers light colours.
pub record Window : Type 0 where
  pub stored : Option String
  pub prefers_light : Bool

abbrev preferred : Window → Theme
preferred w = if w.prefers_light then light else dark

abbrev of_stored : String → Theme → Theme
of_stored s other = if str_eq s "light" then light else if str_eq s "dark" then dark else other

-- `getInitial`; none stands for a server without a window.
unfoldable pub get_initial : Option Window → Theme
get_initial none = dark
get_initial (some w) = elim w.stored [ none ↦ preferred w | some s ↦ of_stored s (preferred w) ]

-- The provider: its state, the class of the document and the storage.
pub record Provider : Type 0 where
  pub theme : Theme
  pub document_class : Option Theme
  pub window : Window

-- `applyTheme`.
unfoldable pub apply_theme : Theme → Provider → Provider
apply_theme t p = record p {
  document_class = some t;
  window = record (p.window) { stored = some (text_of t) };
}

unfoldable pub set_theme : Theme → Provider → Provider
unfolding apply_theme
set_theme t p = apply_theme t (record p { theme = t })

abbrev pub other_theme : Theme → Theme
other_theme light = dark
other_theme dark = light

unfoldable pub toggle_theme : Provider → Provider
unfolding set_theme
toggle_theme p = set_theme (other_theme p.theme) p

-- The effect on mount.
unfoldable pub mount : Window → Provider
unfolding apply_theme get_initial
mount w =
    apply_theme (get_initial (some w))
      (record { theme = get_initial (some w); document_class = none; window = w })

-- A theme that was set is the theme that the next visit opens with, whatever the system prefers by
-- then, and toggling twice brings back the theme.
pub get_initial-set_theme :
    (t : Theme) (p : Provider) (prefers_light : Bool)
    → (get_initial (some (record ((set_theme t p).window) { prefers_light = prefers_light })) ≡ t)
      × ((toggle_theme (toggle_theme (set_theme t p))).theme ≡ t)
      × ((set_theme t p).document_class ≡ some t)
unfolding get_initial set_theme apply_theme toggle_theme
get_initial-set_theme light p prefers_light = (refl, refl, refl)
get_initial-set_theme dark p prefers_light = (refl, refl, refl)
