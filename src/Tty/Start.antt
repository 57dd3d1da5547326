-- ===== src/Tty/Start.antt =====
-- src/tty.c: the terminals after tty_init.
use wuros.Prelude.{
  ℕ, suc, ◌+◌, ◌≡◌, refl, ap, ◌∙◌, pos, List, [], ◌∷◌, none, some, ok, arith, length, length-fill,
}
use wuros.Ringbuf.{ringbuf_size}
use wuros.Ringbuf.Valid.{IsValid, contents, ringbuf_init-IsValid, contents-ringbuf_init}
use wuros.Screen.{screen_size}
use wuros.Tty.{
  Tty, Ttys, tty_max, clear_tty, clear_ttys, select, select_other, on_active, tty_select, tty_init,
}
use wuros.Tty.Cursor.{OnScreen}

-- The arrays of a terminal have their sizes.
pub record IsSized (t : Tty) : Type 0 where
  pub screen : length t.buf ≡ screen_size
  pub input : length t.io_input.bytes ≡ ringbuf_size
  pub output : length t.io_output.bytes ≡ ringbuf_size

abbrev pub AllSized : List Tty → Type 0
AllSized [] = Unit {0}
AllSized (t ∷ ts) = IsSized t × AllSized ts

-- The terminal number `i`, with its cursor on the screen and nothing in its buffers
pub record IsReady (i : ℕ) (t : Tty) : Type 0 where
  pub number : t.id ≡ pos i
  pub on_screen : OnScreen t
  pub input : IsValid t.io_input
  pub output : IsValid t.io_output
  pub no_input : contents t.io_input ≡ []
  pub no_output : contents t.io_output ≡ []

abbrev pub AllReady : ℕ → List Tty → Type 0
AllReady i [] = Unit {0}
AllReady i (t ∷ ts) = IsReady i t × AllReady (i + 1) ts

clear_tty-IsReady : (i : ℕ) (t : Tty) → IsSized t → IsReady i (clear_tty i t)
unfolding clear_tty
clear_tty-IsReady i t v = record {
  number = refl;
  on_screen = record {
    column = omega arith;
    row = omega arith;
    size = length-fill screen_size 0 0 t.buf ∙ v.screen;
  };
  input = ringbuf_init-IsValid t.io_input v.input;
  output = ringbuf_init-IsValid t.io_output v.output;
  no_input = contents-ringbuf_init t.io_input;
  no_output = contents-ringbuf_init t.io_output;
}

clear_ttys-AllReady : (i : ℕ) (ts : List Tty) → AllSized ts → AllReady i (clear_ttys i ts)
unfolding clear_ttys
clear_ttys-AllReady i [] v = tt
clear_ttys-AllReady i (t ∷ ts) (first, others) =
    (clear_tty-IsReady i t first, clear_ttys-AllReady (i + 1) ts others)

length-clear_ttys : (i : ℕ) (ts : List Tty) → length (clear_ttys i ts) ≡ length ts
unfolding clear_ttys
length-clear_ttys i [] = refl
length-clear_ttys i (t ∷ ts) = ap suc (length-clear_ttys (i + 1) ts)

refresh-IsReady : (i : ℕ) (t : Tty) → IsReady i t → IsReady i (record t { refresh = 1 })
refresh-IsReady i t v = record {
  number = v.number;
  on_screen = record {
    column = v.on_screen.column;
    row = v.on_screen.row;
    size = v.on_screen.size;
  };
  input = v.input;
  output = v.output;
  no_input = v.no_input;
  no_output = v.no_output;
}

select_first :
    (t : Tty) (ts : List Tty)
    → tty_select (record { tty_table = t ∷ ts; active_tty = none }) (pos 0)
      ≡ ok (record { tty_table = record t { refresh = 1 } ∷ ts; active_tty = some 0 })
unfolding tty_select select_other select on_active
select_first t ts = refl

-- tty_init before any terminal is active, on a table whose arrays have their sizes: it succeeds and
-- makes the terminal 0 the active one. Every entry of the table has its index for a number, its cursor
-- on the screen, and valid empty input and output buffers.
pub tty_init-AllReady :
    (table : List Tty)
    → length table ≡ tty_max
    → AllSized table
    → (s : Ttys) × (tty_init (record { tty_table = table; active_tty = none }) ≡ ok s)
      × (s.active_tty ≡ some 0)
      × (length s.tty_table ≡ tty_max)
      × AllReady 0 s.tty_table
unfolding tty_init clear_ttys
tty_init-AllReady [] size v = absurd (omega arith)
tty_init-AllReady (t ∷ ts) size (first, others) = (
  record {
    tty_table = record (clear_tty 0 t) { refresh = 1 } ∷ clear_ttys 1 ts;
    active_tty = some 0;
  },
  select_first (clear_tty 0 t) (clear_ttys 1 ts),
  refl,
  ap suc (length-clear_ttys 1 ts) ∙ size,
  (
    refresh-IsReady 0 (clear_tty 0 t) (clear_tty-IsReady 0 t first),
    clear_ttys-AllReady 1 ts others,
  ),
)
