-- ===== src/Screen/Examples.antt =====
-- The screen at concrete inputs.
use wuros.Prelude.{◌≡◌, refl, ℕ, List, ◌++◌, replicate, drop, length-replicate}
use wuros.Screen.{screen_width, vga_char, scroll_rows}
use wuros.Screen.Scroll.{scroll_rows-eq-drop}

-- Light grey on black, and a character above 127 with all the bits of its sign
grey_letter : vga_char 0 7 65 ≡ 1857
unfolding vga_char
grey_letter = refl

signed_letter : vga_char 0 7 200 ≡ 4294967240
unfolding vga_char
signed_letter = refl

abbrev page : List ℕ
page = replicate 2000 65

scroll_rows-eq-drop_example :
    scroll_rows 0 page ≡ drop screen_width page ++ replicate screen_width 0
scroll_rows-eq-drop_example = scroll_rows-eq-drop 0 page (length-replicate {A = ℕ} 2000 65)
