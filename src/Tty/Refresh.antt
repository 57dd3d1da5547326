-- ===== src/Tty/Refresh.antt =====
-- src/tty.c and src/vga.c: tty_refresh comes to its end.
use wuros.Prelude.{
  ℕ, zero, suc, ◌+◌, ◌*◌, ◌==◌, ◌<◌, ◌≤◌, ◌≡◌, refl, ap, ◌∙◌, ◌⊎◌, inl, inr, pos, Bool-cases,
  if◌then◌else◌, [], length, get_or, Outcome, ok, ◌>>=◌, arith,
}
use wuros.Ringbuf.{ringbuf_size, ringbuf_flush}
use wuros.Ringbuf.Valid.{IsValid, contents, ringbuf_init-IsValid, contents-ringbuf_init}
use wuros.Screen.{screen_width, screen_height, screen_size}
use wuros.Vga.{Vga, vga_putc_at}
use wuros.Vga.At.{vga_putc_at-ok}
use wuros.Tty.{Tty}
use wuros.Tty.Cursor.{OnScreen}
use wuros.Tty.Output.{drain-Drains, length-contents-le}
use wuros.Tty.Draw.{draw_cells, draw_if, refresh_on}
use wuros.Tty.Shown.{next_x, next_y, next_place, place_room, load_ok}

-- The loop over the cells, whether the cursor of the display is on or off
draws_all :
    (n x y : ℕ) (t : Tty) (v : Vga)
    → x < screen_width
    → y < screen_height
    → (n ≡ 0) ⊎ (screen_width * y + x + n ≤ screen_size)
    → length t.buf ≡ screen_size
    → length v.buf ≡ screen_size
    → (v' : Vga) × (draw_cells n x y t v ≡ ok v') × (length v'.buf ≡ screen_size)
unfolding draw_cells
draws_all zero x y t v hx hy fits ht hv = (v, refl, hv)
draws_all (suc n) x y t v hx hy (inl nothing) ht hv = absurd (omega arith)
draws_all (suc n) x y t v hx hy (inr fits) ht hv =
    let p = screen_width * y + x in
    let (hx', hy', place) = next_place n x y hx hy fits in
    let in_tty : p < length t.buf = omega (arith, fits, ht) in
    let in_vga : p < length v.buf = omega (arith, fits, hv) in
    let (v1, e1, same) = vga_putc_at-ok v x y t.color_bg t.color_fg (get_or t.buf p 0) in_vga in
    let (v', r, hv') =
      draws_all n (next_x x) (next_y x y) t v1 hx' hy'
        (place_room n x y (screen_width * next_y x y + next_x x) fits place) ht (same ∙ hv) in
    (
      v',
      ap
            (λ r. r >>= λ c.
              vga_putc_at v (pos x) (pos y) t.color_bg t.color_fg c
              >>= draw_cells n (next_x x) (next_y x y) t)
            (load_ok t.buf p in_tty)
          ∙ ap (λ r. r >>= draw_cells n (next_x x) (next_y x y) t) e1
          ∙ r,
      hv',
    )

draws_if :
    (t : Tty) (v : Vga)
    → length t.buf ≡ screen_size
    → length v.buf ≡ screen_size
    → (v' : Vga) × (draw_if t v ≡ ok v') × (length v'.buf ≡ screen_size)
unfolding draw_if
draws_if t v ht hv = elim (Bool-cases (t.refresh == 0)) [
  | inl clear ↦ (v, ap (λ b. if b then ok v else draw_cells screen_size 0 0 t v) clear, hv)
  | inr flag ↦
      let (v', r, hv') =
        draws_all screen_size 0 0 t v (omega arith) (omega arith) (inr (omega arith)) ht hv in
      (v', ap (λ b. if b then ok v else draw_cells screen_size 0 0 t v) flag ∙ r, hv')
]

-- tty_refresh on a terminal with its cursor on the screen and a valid output buffer, and on a display of
-- 2000 cells, comes to its end, with the cursor of the display on or off: the loop that prints needs at
-- most as many rounds as the buffer has places, and the loop that draws stays inside both buffers. The
-- output buffer is empty afterwards, the cursor still on the screen, the refresh flag clear, the input
-- buffer as before, and the display has its 2000 cells.
pub refresh_on-Drains :
    (t : Tty) (v : Vga)
    → OnScreen t
    → IsValid t.io_output
    → length v.buf ≡ screen_size
    → (t' : Tty) × (v' : Vga) × (refresh_on t v ≡ ok (t', v'))
      × OnScreen t'
      × (t'.refresh ≡ 0)
      × (t'.io_input ≡ t.io_input)
      × IsValid t'.io_output
      × (contents t'.io_output ≡ [])
      × (length v'.buf ≡ screen_size)
unfolding refresh_on ringbuf_flush
refresh_on-Drains t v on valid hv =
    let (t1, e, on1, i1, valid1, nothing) =
      drain-Drains ringbuf_size t on valid (length-contents-le t.io_output valid) in
    let t2 : Tty = record t1 { io_output = ringbuf_flush t1.io_output } in
    let (v', r, hv') = draws_if t2 v on1.size hv in
    (
      record t2 { refresh = 0 },
      v',
      ap (λ r. r >>= finish) e ∙ ap (λ r. r >>= done t2) r,
      record { column = on1.column; row = on1.row; size = on1.size },
      refl,
      i1,
      ringbuf_init-IsValid t1.io_output valid1.storage,
      contents-ringbuf_init t1.io_output,
      hv',
    )
  where
    done : Tty → Vga → Outcome (Tty × Vga)
    done t1 v' = ok (record t1 { refresh = 0 }, v')

    finish : Tty → Outcome (Tty × Vga)
    finish t = do
      let t1 = record t { io_output = ringbuf_flush t.io_output }
      v' ← draw_if t1 v
      ok (record t1 { refresh = 0 }, v')
