-- ===== src/Theme/Tests.antt =====
-- The theme of a browser that prefers dark colours.
use sensepro.Prelude.{◌≡◌, refl, false, none}
use sensepro.Theme.{Window, dark, light, get_initial, apply_theme, set_theme, toggle_theme, mount}

abbrev dark_system : Window
dark_system = record { stored = none; prefers_light = false }

mounted_dark :
    ((mount dark_system).theme ≡ dark) × ((toggle_theme (mount dark_system)).theme ≡ light)
unfolding mount get_initial apply_theme set_theme toggle_theme
mounted_dark = (refl, refl)
