-- ===== src/Proc/Examples.antt =====
-- The lookups of src/kproc.c at concrete inputs.
use wuros.Prelude.{◌≡◌, refl, pos, some, stop, fault}
use wuros.Proc.{find_pid, pid_to_proc, proc_to_entry, entry_to_proc}
use wuros.Proc.Lookup.{Resolves, pid_to_proc-Resolves}
use wuros.Samples.{demo}

pid_to_proc-demo : pid_to_proc demo (pos 3) ≡ some 3
unfolding pid_to_proc find_pid
pid_to_proc-demo = refl

proc_to_entry-demo : proc_to_entry demo (some 2) ≡ some 2
unfolding proc_to_entry find_pid
proc_to_entry-demo = refl

entry_to_proc-behind : entry_to_proc demo (pos 20) ≡ stop fault
unfolding entry_to_proc
entry_to_proc-behind = refl

pid_to_proc-Resolves_example : Resolves demo (pos 3) (pid_to_proc demo (pos 3))
pid_to_proc-Resolves_example = pid_to_proc-Resolves demo (pos 3)
