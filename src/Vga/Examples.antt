-- ===== src/Vga/Examples.antt =====
-- src/vga.c at concrete inputs.
use wuros.Prelude.{
  ◌≡◌, refl, ℕ, pos, List, [], ok, stop, fault, arith, replicate, length-replicate, codes,
}
use wuros.Vga.{
  Vga, vga_cursor_enable, vga_scrolling_enable, vga_set_xy, vga_init, vga_set_bg, vga_set_fg,
  vga_setc, vga_puts, vga_puts_at,
}
use wuros.Vga.Cursor.{at, Stays}
use wuros.Vga.Print.{vga_puts-Stays}

abbrev page : List ℕ
page = replicate 2000 0

abbrev display : Vga
display = record {
  buf = page;
  pos_x = pos 79;
  pos_y = pos 24;
  color_bg = 0;
  color_fg = 7;
  cursor = 0;
  scrolling_enabled = 1;
  ports = [];
}

vga_puts-Stays_example : Stays display (vga_puts (at display page 79 24) (codes "ab"))
vga_puts-Stays_example =
    vga_puts-Stays display page 79 24 (codes "ab") (omega arith) (omega arith)
      (length-replicate {A = ℕ} 2000 0)

-- A position outside of the screen
outside : vga_setc (vga_set_xy display (pos 0) (pos 25)) 65 ≡ stop fault
unfolding vga_setc vga_set_xy
outside = refl

enabled : (vga_cursor_enable 255 255 display).cursor ≡ 0
unfolding vga_cursor_enable
enabled = refl

colours : (vga_set_fg (vga_set_bg display (pos 8)) (pos 15)).color_fg ≡ 15
unfolding vga_set_fg vga_set_bg
colours = refl

abbrev narrow : Vga
narrow = record display { buf = [] }

starts : (vga_init (vga_scrolling_enable narrow)).pos_x ≡ pos 0
unfolding vga_init vga_scrolling_enable
starts = refl

no_text : vga_puts_at narrow (pos 0) (pos 0) 0 7 [] ≡ ok narrow
unfolding vga_puts_at
no_text = refl
