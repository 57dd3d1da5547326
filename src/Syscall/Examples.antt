-- ===== src/Syscall/Examples.antt =====
-- src/syscall.c at concrete inputs.
use wuros.Prelude.{◌≡◌, refl, pos, some, ok, ◌>>=◌, arith}
use wuros.Kernel.{Kernel}
use wuros.Kernel.Enter.{kernel_context_enter}
use wuros.Kernel.Samples.{call_frame, sample, platform}
use wuros.Ksyscall.Calls.{ksyscall_sys_get_time}
use wuros.Ksyscall.Dispatch.{number, word_of_int, answer, ksyscall_irq_handler}
use wuros.Syscall.{mutex_lock, syscall1, syscall_result}
use wuros.Syscall.Agree.{get_time, lock, request, meaning, request-served}
use wuros.Syscall.Return.{entered, returned, calls_return}
use wuros.Samples.{zero_frame}

abbrev waiting : Kernel
waiting = sample (request zero_frame (lock (pos 3)))

request-served_example :
    ksyscall_irq_handler platform.after_free_mutex platform.after_free_sem waiting ≡ (
      meaning platform.after_free_mutex platform.after_free_sem waiting (lock (pos 3)) >>= λ r.
      answer r.1 r.0)
request-served_example =
    request-served platform.after_free_mutex platform.after_free_sem waiting 4 zero_frame
      (lock (pos 3)) refl refl (omega arith)

abbrev before : Kernel
before = sample (call_frame 8 0)

abbrev during : Kernel
during = entered before 4 (request zero_frame get_time)

two_seconds :
    meaning platform.after_free_mutex platform.after_free_sem during get_time ≡ ok (pos 2, during)
unfolding meaning ksyscall_sys_get_time
two_seconds = refl

calls_return_example :
    (k'' : Kernel) × (kernel_context_enter platform before (request zero_frame get_time)
      ≡ ok (k'', some (returned (request zero_frame get_time) (pos 2))))
    × (syscall_result (returned (request zero_frame get_time) (pos 2)) ≡ pos 2)
    × (k''.memory ≡ during.memory)
    × (k''.ttys ≡ during.ttys)
calls_return_example =
    calls_return platform before during 4 zero_frame (request zero_frame get_time) get_time (pos 2)
      refl (omega arith) refl tt two_seconds (omega arith) refl (omega arith) refl refl refl

lock_registers :
    mutex_lock zero_frame (pos 3) ≡ record zero_frame { eax = 12; ebx = 3; interrupt = 128 }
unfolding mutex_lock syscall1 number word_of_int
lock_registers = refl
