-- ===== src/Tty/Draw.antt =====
-- src/tty.c: the drawing on the display at the end of tty_refresh, and tty_refresh with it.
use wuros.Prelude.{
  ℕ, zero, suc, ◌+◌, ◌-◌, ◌*◌, ◌==◌, leb, pos, if◌then◌else◌, none, some, get_elem?, set, Outcome,
  ok, stop, panic, fault, ◌>>=◌,
}
use wuros.Ringbuf.{ringbuf_size, ringbuf_flush}
use wuros.Screen.{screen_width, screen_height, screen_size, load}
use wuros.Vga.{Vga, vga_putc_at}
use wuros.Tty.{Tty, Ttys, drain}

-- The loop over the buffer, with `n` rounds left, at the column `x` and the row `y`
unfoldable pub draw_cells : ℕ → ℕ → ℕ → Tty → Vga → Outcome Vga
draw_cells zero x y t v = ok v
draw_cells (suc n) x y t v = do
  c ← load t.buf (screen_width * y + x)
  v' ← vga_putc_at v (pos x) (pos y) t.color_bg t.color_fg c
  let wraps = leb screen_width (x + 1)
  let below = if y == (screen_height - 1) then y else y + 1
  draw_cells n (if wraps then 0 else x + 1) (if wraps then below else y) t v'

-- What is drawn is the terminal without its output, and only where the flag is set.
unfoldable pub draw_if : Tty → Vga → Outcome Vga
unfolding draw_cells
draw_if t v = if t.refresh == 0 then ok v else draw_cells screen_size 0 0 t v

unfoldable pub refresh_on : Tty → Vga → Outcome (Tty × Vga)
unfolding draw_if
refresh_on t0 v = do
  t ← drain ringbuf_size t0
  let t1 = record t { io_output = ringbuf_flush t.io_output }
  v' ← draw_if t1 v
  ok (record t1 { refresh = 0 }, v')

unfoldable pub tty_refresh : Ttys → Vga → Outcome (Ttys × Vga)
unfolding refresh_on
tty_refresh s v = elim s.active_tty [
  | none ↦ stop panic
  | some n ↦ elim (get_elem? s.tty_table n) [
    | none ↦ stop fault
    | some t ↦ do r ← refresh_on t v; ok (record s { tty_table = set s.tty_table n r.0 }, r.1)
  ]
]
