-- ===== src/Kproc/Start.antt =====
-- src/kproc.c: kproc_init with the processes that it creates. The addresses of the programs are
-- parameters. The clearing of the stacks is left out: what a new stack holds is a parameter of
-- kproc_create.
use wuros.Prelude.{
  ℕ, zero, suc, ◌+◌, ◌-◌, ◌%◌, ℤ, pos, negsuc, minus_one, eq_ℤ, if◌then◌else◌, List, codes, Outcome,
  ok, ◌>>=◌,
}
use wuros.Proc.{Procs, Trapframe, kernel, user}
use wuros.Tty.{tty_max, tty_get}
use wuros.Kproc.{Machine, kproc_create, kproc_attach_tty, kproc_reset}

-- kproc_idle, prog_shell, prog_ping and prog_pong
pub record Programs : Type 0 where
  pub kproc_idle : ℕ
  pub prog_shell : ℕ
  pub prog_ping : ℕ
  pub prog_pong : ℕ

-- TTY_MAX - (pid % 2) - 1, with the remainder of C
unfoldable pub own_tty : ℤ → ℤ
own_tty (pos pid) = pos (tty_max - pid % 2 - 1)
own_tty (negsuc n) = pos (tty_max + suc n % 2 - 1)

module _ (m : Machine) (ticks : ℕ) (stale : Trapframe) (programs : Programs) where
  -- The loop that creates the shells, from `tty` on
  unfoldable pub create_shells : ℕ → ℕ → Procs → Outcome Procs
  create_shells zero tty s = ok s
  create_shells (suc n) tty s = do
    r ← kproc_create m ticks stale s programs.prog_shell (codes "shell") user
    create_shells n (tty + 1)
        (if eq_ℤ r.0 minus_one then r.1 else (kproc_attach_tty r.1 r.0 (tty_get (pos tty))).1)

  -- A loop that creates processes of one program, each with the terminal that goes with its id
  unfoldable pub create_players : ℕ → ℕ → List ℕ → Procs → Outcome Procs
  unfolding own_tty
  create_players zero proc_ptr name s = ok s
  create_players (suc n) proc_ptr name s = do
    r ← kproc_create m ticks stale s proc_ptr name user
    create_players n proc_ptr name (kproc_attach_tty r.1 r.0 (tty_get (own_tty r.0))).1

  unfoldable pub kproc_init : Procs → Outcome Procs
  unfolding create_shells create_players
  kproc_init s = do
    r ← kproc_create m ticks stale (kproc_reset s) programs.kproc_idle (codes "idle") kernel
    s1 ← create_shells 4 1 r.1
    s2 ← create_players 3 programs.prog_ping (codes "ping") s1
    create_players 3 programs.prog_pong (codes "pong") s2
