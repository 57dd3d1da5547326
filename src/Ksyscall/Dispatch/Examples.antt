-- ===== src/Ksyscall/Dispatch/Examples.antt =====
-- The system calls of src/ksyscall.c at concrete inputs.
use wuros.Prelude.{
  ◌≡◌, refl, inl, pos, negsuc, ◌++◌, [], ◌∷◌, none, some, Outcome, ok, arith, replicate, codes,
}
use wuros.Queue.Valid.{contents}
use wuros.Proc.{Procs, find_pid, proc_to_entry, proc_at}
use wuros.Kproc.{reset_proc}
use wuros.Kmutex.{mutex_at}
use wuros.Kmutex.Sound.{IsSound}
use wuros.Kernel.{Kernel, mutexes_of}
use wuros.Kernel.Samples.{call_frame, caller, calling, sample, platform, calling-IsWellFormed}
use wuros.Ksyscall.Calls.{ksyscall_sys_get_time}
use wuros.Ksyscall.Calls.Memory.{patched}
use wuros.Ksyscall.Dispatch.{int_of_word, word_of_int, set_eax, ksyscall_irq_handler}
use wuros.Ksyscall.Dispatch.Answer.{Handles, int_of_word-word_of_int, ksyscall_irq_handler-Handles}
use wuros.Ksyscall.Dispatch.Leave.{exit_call}
use wuros.Ksyscall.Dispatch.Lock.{LocksOrBlocks, lock_call}
use wuros.Ksyscall.Dispatch.Name.{get_name_call}
use wuros.Samples.{nobody-IsValid}

abbrev handler : Kernel → Outcome Kernel
handler = ksyscall_irq_handler platform.after_free_mutex platform.after_free_sem

int_of_word-word_of_int_example :
    (int_of_word (word_of_int (pos 7)) ≡ pos 7) × (int_of_word (word_of_int (negsuc 7)) ≡ negsuc 7)
int_of_word-word_of_int_example = int_of_word-word_of_int 7 (omega arith)

ksyscall_irq_handler-Handles_example :
    Handles platform.after_free_mutex platform.after_free_sem
      (sample (call_frame 99 0))
      (handler (sample (call_frame 99 0)))
ksyscall_irq_handler-Handles_example =
    ksyscall_irq_handler-Handles platform.after_free_mutex platform.after_free_sem
      (sample (call_frame 99 0))

found_4 : proc_to_entry (calling (call_frame 7 0)) (some 4) ≡ some 4
unfolding proc_to_entry find_pid
found_4 = refl

exit_call_example :
    (s' : Procs) × (handler (sample (call_frame 7 0))
      ≡ ok (record (sample (call_frame 7 0)) { procs = s' }))
    × (s'.active_proc ≡ none)
    × (proc_at s' 4 ≡ reset_proc (caller (call_frame 7 0)))
    × (contents s'.proc_allocator
        ≡ contents (calling (call_frame 7 0)).proc_allocator ++ pos 4 ∷ [])
exit_call_example =
    exit_call platform.after_free_mutex platform.after_free_sem (sample (call_frame 7 0)) 4
      (call_frame 7 0) (calling-IsWellFormed (call_frame 7 0)) refl refl refl (λ e. ground arith)
      found_4 (omega arith)

free_0 : IsSound (mutex_at (mutexes_of (sample (call_frame 12 0))) 0)
free_0 = record { waiters = nobody-IsValid; counted = inl (refl, refl, refl) }

lock_call_example :
    LocksOrBlocks
      (sample (call_frame 12 0))
      4
      (call_frame 12 0)
      0
      (handler (sample (call_frame 12 0)))
lock_call_example =
    lock_call platform.after_free_mutex platform.after_free_sem (sample (call_frame 12 0)) 4 0
      (call_frame 12 0) (calling-IsWellFormed (call_frame 12 0)) refl refl refl refl (omega arith)
      free_0 (omega arith)

get_name_call_example :
    handler (sample (call_frame 9 8))
    ≡ ok (
        set_eax
          (record (sample (call_frame 9 8)) {
            memory = patched (replicate 64 1) 8 (codes "shell" ++ replicate 27 0);
          })
          4
          (call_frame 9 8)
          0)
get_name_call_example =
    get_name_call platform.after_free_mutex platform.after_free_sem (sample (call_frame 9 8)) 4 8
      (call_frame 9 8) refl refl refl refl (omega arith) (omega arith) (omega arith)

-- 250 ticks are 2 seconds.
time : ksyscall_sys_get_time (sample (call_frame 4 0)).timers ≡ pos 2
unfolding ksyscall_sys_get_time
time = refl
