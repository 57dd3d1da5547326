-- ===== src/Tty/Invariant.antt =====
-- src/tty.c: what the terminals keep whatever is done to them.
use wuros.Prelude.{
  ℕ, zero, suc, ◌+◌, ◌==◌, ◌≡◌, subst, sym, inl, inr, ℤ, pos, negsuc, eq_ℤ, List, [], ◌∷◌, Option,
  none, some, get_elem?, ◌*◌, get_or, set, length, ltb, Outcome, ok, stop, panic, fault, Keeps,
  Keeps-bind, Keeps-of_eq, Keeps-if, Keeps-elim, holds-if,
}
use wuros.Ringbuf.{Ringbuf, ringbuf_size, ringbuf_write, ringbuf_flush}
use wuros.Ringbuf.Valid.{IsValid, ringbuf_init-IsValid}
use wuros.Ringbuf.Refine.{ringbuf_write-Pushed}
use wuros.Screen.{screen_width, screen_size, load}
use wuros.Vga.{Vga, vga_putc_at}
use wuros.Vga.At.{AnyScreen, vga_putc_at-ends}
use wuros.Tty.{
  Tty, Ttys, drain, kept, take_input, on_active, tty_input, select, select_other, id_of,
  tty_get_active, tty_select,
}
use wuros.Tty.Cursor.{OnScreen}
use wuros.Tty.Output.{drain-Drains, length-contents-le}
use wuros.Tty.Draw.{draw_cells, draw_if, refresh_on, tty_refresh}

-- The cursor is on the screen, and both buffers are valid.
pub record IsUsable (t : Tty) : Type 0 where
  pub on_screen : OnScreen t
  pub input : IsValid t.io_input
  pub output : IsValid t.io_output

abbrev pub AllUsable : List Tty → Type 0
AllUsable [] = Unit {0}
AllUsable (t ∷ ts) = IsUsable t × AllUsable ts

abbrev pub TtysUsable : Ttys → Type 0
TtysUsable s = AllUsable s.tty_table

pub AllUsable-at :
    (ts : List Tty) (n : ℕ) (t : Tty) → get_elem? ts n ≡ some t → AllUsable ts → IsUsable t
AllUsable-at [] n t e all = absurd (none≢some t e)
  where
    none≢some : (t : Tty) → none ≡ some t → ⊥
    none≢some t e = cc
AllUsable-at (x ∷ ts) zero t e all = subst IsUsable (some-inj x t e) all.0
  where
    some-inj : (x t : Tty) → some x ≡ some t → x ≡ t
    some-inj x t e = cc
AllUsable-at (x ∷ ts) (suc n) t e all = AllUsable-at ts n t e all.1

pub AllUsable-set :
    (ts : List Tty) (n : ℕ) (t : Tty) → IsUsable t → AllUsable ts → AllUsable (set ts n t)
AllUsable-set [] n t u all = tt
AllUsable-set (x ∷ ts) zero t u all = (u, all.1)
AllUsable-set (x ∷ ts) (suc n) t u all = (all.0, AllUsable-set ts n t u all.1)

on_active-Keeps :
    (f : Tty → Outcome Tty)
    → ((t : Tty) → IsUsable t → Keeps IsUsable (f t))
    → (s : Ttys) (n : ℕ) → TtysUsable s
    → Keeps TtysUsable (on_active f s n)
unfolding on_active
on_active-Keeps f keep s n all =
    Keeps-elim TtysUsable (get_elem? s.tty_table n) (stop fault) _ tt (λ t e.
      Keeps-bind IsUsable TtysUsable (f t) _ (keep t (AllUsable-at s.tty_table n t e all))
        (λ t' u. AllUsable-set s.tty_table n t' u all))

kept-IsValid : (b : Ringbuf) (c : ℕ) → IsValid b → IsValid (kept b (ringbuf_write b c))
unfolding kept
kept-IsValid b c v = elim (ringbuf_write-Pushed b c v) [
  | inl (full, h) ↦ rw (h, kept) v
  | inr (b', h, v', same, room) ↦ rw (h, kept) v'
]

take_input-IsUsable : (c : ℕ) (t : Tty) → IsUsable t → IsUsable (take_input c t)
unfolding take_input
take_input-IsUsable c t u =
    holds-if IsUsable (t.echo == 1) _ _
      (record {
        on_screen = screen u.on_screen;
        input = kept-IsValid t.io_input c u.input;
        output = kept-IsValid t.io_output c u.output;
      })
      (record {
        on_screen = screen u.on_screen;
        input = kept-IsValid t.io_input c u.input;
        output = u.output;
      })
  where
    screen : {b b' : Ringbuf} → OnScreen t → OnScreen (record t { io_input = b; io_output = b' })
    screen o = record { column = o.column; row = o.row; size = o.size }

pub tty_input-Keeps : (s : Ttys) (c : ℕ) → TtysUsable s → Keeps TtysUsable (tty_input s c)
unfolding tty_input
tty_input-Keeps s c all =
    Keeps-elim TtysUsable s.active_tty (stop fault) _ tt
      (λ n e. on_active-Keeps (λ t. ok (take_input c t)) (take_input-IsUsable c) s n all)

select-Keeps : (s : Ttys) (n : ℤ) → TtysUsable s → Keeps TtysUsable (select s n)
unfolding select
select-Keeps s (pos n) all =
    Keeps-bind TtysUsable TtysUsable (on_active (λ t. ok (record t { refresh = 1 })) s n) _
      (on_active-Keeps (λ t. ok (record t { refresh = 1 }))
        (λ t u. record {
          on_screen = record {
            column = u.on_screen.column;
            row = u.on_screen.row;
            size = u.on_screen.size;
          };
          input = u.input;
          output = u.output;
        })
        s n all)
      (λ s' all'. all')
select-Keeps s (negsuc n) all = tt

abbrev pub AnyId : ℤ → Type 0
AnyId id = Unit

pub tty_get_active-ends : (s : Ttys) → Keeps AnyId (tty_get_active s)
unfolding tty_get_active id_of
tty_get_active-ends s =
    Keeps-elim AnyId s.active_tty _ _ tt
      (λ n e. Keeps-elim AnyId (get_elem? s.tty_table n) (stop fault) _ tt (λ t e'. tt))

select_other-Keeps :
    (s : Ttys) (n : ℤ) (o : Option ℕ) → TtysUsable s → Keeps TtysUsable (select_other s n o)
unfolding select_other
select_other-Keeps s n none all = select-Keeps s n all
select_other-Keeps s n (some a) all =
    Keeps-bind AnyId TtysUsable (tty_get_active s) _ (tty_get_active-ends s)
      (λ id u. Keeps-if TtysUsable (eq_ℤ id n) (ok s) (select s n) all (select-Keeps s n all))

pub tty_select-Keeps : (s : Ttys) (n : ℤ) → TtysUsable s → Keeps TtysUsable (tty_select s n)
unfolding tty_select
tty_select-Keeps s n all = select_other-Keeps s n s.active_tty all

abbrev AnyCell : ℕ → Type 0
AnyCell c = Unit

draw_cells-ends : (n x y : ℕ) (t : Tty) (v : Vga) → Keeps AnyScreen (draw_cells n x y t v)
unfolding draw_cells
draw_cells-ends zero x y t v = tt
draw_cells-ends (suc n) x y t v =
    Keeps-bind AnyCell AnyScreen (load t.buf (screen_width * y + x)) _
      (Keeps-if AnyCell (ltb (screen_width * y + x) (length t.buf))
        (ok (get_or t.buf (screen_width * y + x) 0)) (stop fault) tt tt)
      (λ c u.
        Keeps-bind AnyScreen AnyScreen (vga_putc_at v (pos x) (pos y) t.color_bg t.color_fg c) _
          (vga_putc_at-ends v (pos x) (pos y) t.color_bg t.color_fg c)
          (λ v' u'. draw_cells-ends n _ _ t v'))

abbrev WithTty : Tty × Vga → Type 0
WithTty r = IsUsable r.0

abbrev pub WithTtys : Ttys × Vga → Type 0
WithTtys r = TtysUsable r.0

refresh_on-Keeps : (t : Tty) (v : Vga) → IsUsable t → Keeps WithTty (refresh_on t v)
unfolding refresh_on draw_if ringbuf_flush
refresh_on-Keeps t v u =
    let (t1, e, o1, i1, valid1, nothing) =
      drain-Drains ringbuf_size t u.on_screen u.output (length-contents-le t.io_output u.output) in
    Keeps-bind IsUsable WithTty (drain ringbuf_size t) _
      (Keeps-of_eq IsUsable _ t1 e
        (record { on_screen = o1; input = subst IsValid (sym i1) u.input; output = valid1 }))
      (λ t2 u2.
        Keeps-bind AnyScreen WithTty _ _
          (Keeps-if AnyScreen (t2.refresh == 0) (ok v) _ tt (
            draw_cells-ends screen_size 0 0 (record t2 { io_output = ringbuf_flush t2.io_output })
              v))
          (λ v' s. record {
            on_screen = record {
              column = u2.on_screen.column;
              row = u2.on_screen.row;
              size = u2.on_screen.size;
            };
            input = u2.input;
            output = ringbuf_init-IsValid t2.io_output u2.output.storage;
          }))

-- tty_refresh with its drawing keeps every terminal usable, and its loops end.
pub tty_refresh-Keeps : (s : Ttys) (v : Vga) → TtysUsable s → Keeps WithTtys (tty_refresh s v)
unfolding tty_refresh
tty_refresh-Keeps s v all = Keeps-elim WithTtys s.active_tty (stop panic) _ tt (λ n e.
    Keeps-elim WithTtys (get_elem? s.tty_table n) (stop fault) _ tt (λ t e'.
      Keeps-bind WithTty WithTtys (refresh_on t v) _
        (refresh_on-Keeps t v (AllUsable-at s.tty_table n t e' all))
        (λ r u. AllUsable-set s.tty_table n r.0 u all)))
