-- ===== src/Tty/Examples.antt =====
-- src/tty.c at concrete inputs.
use wuros.Prelude.{
  ◌≡◌, refl, inr, ℕ, pos, List, [], ◌∷◌, ok, stop, fault, panic, none, some, arith, replicate,
  length-replicate, length, ap, suc,
}
use wuros.Ringbuf.{Ringbuf}
use wuros.Ringbuf.Valid.{IsValid, contents, empty_buffer, busy_buffer}
use wuros.Screen.{screen_size}
use wuros.Tty.{
  Tty, Ttys, update, tty_select, tty_get, tty_get_active, tty_update, tty_input, tty_init,
}
use wuros.Vga.{Vga}
use wuros.Tty.Draw.{refresh_on, tty_refresh}
use wuros.Tty.Cursor.{OnScreen, Stays, update-Stays}
use wuros.Tty.Refresh.{refresh_on-Drains}
use wuros.Tty.Start.{AllSized, AllReady, tty_init-AllReady}
use wuros.Tty.Select.{HasTable, Selects, tty_select-Selects}

abbrev silent : Ringbuf
silent = empty_buffer (replicate 1024 0)

-- the byte 104
abbrev spoken : Ringbuf
spoken = busy_buffer 0 0 (104 ∷ replicate 1023 0)

abbrev terminal : ℕ → ℕ → ℕ → Tty
terminal id x y = record {
  id = pos id;
  buf = replicate screen_size 0;
  refresh = 0;
  color_bg = 0;
  color_fg = 7;
  pos_x = x;
  pos_y = y;
  pos_scroll = 0;
  echo = 1;
  io_input = silent;
  io_output = spoken;
}

abbrev ids : List ℕ
ids = 0 ∷ 1 ∷ 2 ∷ 3 ∷ 4 ∷ 5 ∷ 6 ∷ 7 ∷ 8 ∷ 9 ∷ []

abbrev terminals : List ℕ → List Tty
terminals [] = []
terminals (i ∷ is) = terminal i 0 0 ∷ terminals is

abbrev all_terminals : Ttys
all_terminals = record { tty_table = terminals ids; active_tty = some 0 }

spoken-IsValid : IsValid spoken
spoken-IsValid = record { storage = refl; shape = inr (0, 0, refl, omega arith, omega arith) }

-- The last place of the screen, so that a character scrolls
at_end : OnScreen (terminal 0 79 24)
at_end = record { column = omega arith; row = omega arith; size = length-replicate {A = ℕ} 2000 0 }

update-Stays_example : Stays (terminal 0 79 24) (update (terminal 0 79 24) 65)
update-Stays_example = update-Stays (terminal 0 79 24) 65 at_end

all_terminals-HasTable : HasTable all_terminals
all_terminals-HasTable = record { table = refl; active_in = λ a e. ground arith }

tty_select-Selects_example : Selects all_terminals 10 (tty_select all_terminals (pos 10))
tty_select-Selects_example = tty_select-Selects all_terminals 10 all_terminals-HasTable

gets : tty_get (pos 9) ≡ some 9
unfolding tty_get
gets = refl

rejects : tty_get (pos 10) ≡ none
unfolding tty_get
rejects = refl

no_active_input : tty_input (record all_terminals { active_tty = none }) 104 ≡ stop fault
unfolding tty_input
no_active_input = refl

abbrev no_active : Ttys
no_active = record { tty_table = []; active_tty = none }

update_ignored : tty_update no_active 104 ≡ ok no_active
unfolding tty_update
update_ignored = refl

refresh_panics : (v : Vga) → tty_refresh no_active v ≡ stop panic
unfolding tty_refresh
refresh_panics v = refl

terminals-AllSized : (is : List ℕ) → AllSized (terminals is)
terminals-AllSized [] = tt
terminals-AllSized (i ∷ is) = (
  record {
    screen = length-replicate {A = ℕ} 2000 0;
    input = length-replicate {A = ℕ} 1024 0;
    output = ap suc (length-replicate {A = ℕ} 1023 0);
  },
  terminals-AllSized is,
)

tty_init-AllReady_example :
    (s : Ttys) × (tty_init (record { tty_table = terminals ids; active_tty = none }) ≡ ok s)
    × (s.active_tty ≡ some 0)
    × (length s.tty_table ≡ 10)
    × AllReady 0 s.tty_table
tty_init-AllReady_example = tty_init-AllReady (terminals ids) refl (terminals-AllSized ids)

active_id : tty_get_active all_terminals ≡ ok (pos 0)
unfolding tty_get_active
active_id = refl

abbrev display : Vga
display = record {
  buf = replicate screen_size 0;
  pos_x = pos 0;
  pos_y = pos 0;
  color_bg = 0;
  color_fg = 7;
  cursor = 0;
  scrolling_enabled = 0;
  ports = [];
}

refresh_on-Drains_example :
    (t' : Tty) × (v' : Vga) × (refresh_on (terminal 0 79 24) display ≡ ok (t', v'))
    × OnScreen t'
    × (t'.refresh ≡ 0)
    × (t'.io_input ≡ silent)
    × IsValid t'.io_output
    × (contents t'.io_output ≡ [])
    × (length v'.buf ≡ screen_size)
refresh_on-Drains_example =
    refresh_on-Drains (terminal 0 79 24) display at_end spoken-IsValid
      (length-replicate {A = ℕ} 2000 0)
