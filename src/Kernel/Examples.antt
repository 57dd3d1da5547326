-- ===== src/Kernel/Examples.antt =====
-- src/kernel.c at concrete inputs.
use wuros.Prelude.{◌≡◌, refl, pos, negsuc, false, Keeps}
use wuros.Kernel.Log.{kernel_set_log_level, logs}
use wuros.Kernel.Enter.{kernel_context_enter}
use wuros.Kernel.Invariant.{Leaves, kernel_context_enter-Leaves}
use wuros.Kernel.Samples.{call_frame, sample, platform, sample-Sound}
use wuros.Samples.{zero_frame}

-- A tick of the timer while the process 4 runs
kernel_context_enter-Leaves_example :
    Keeps Leaves (
      kernel_context_enter platform
        (sample (call_frame 8 0))
        (record zero_frame { interrupt = 32 }))
kernel_context_enter-Leaves_example =
    kernel_context_enter-Leaves platform (sample (call_frame 8 0))
      (record zero_frame { interrupt = 32 }) (sample-Sound (call_frame 8 0))

lowered : kernel_set_log_level (pos 3) (pos 2) ≡ pos 2
unfolding kernel_set_log_level
lowered = refl

refused : kernel_set_log_level (pos 3) (negsuc 0) ≡ pos 3
unfolding kernel_set_log_level
refused = refl

quiet : logs 4 (pos 3) ≡ false
unfolding logs
quiet = refl
