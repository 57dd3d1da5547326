-- ===== src/Kernel/Log.antt =====
-- src/kernel.c: the log level. The messages themselves are output of the host and left out.
use wuros.Prelude.{ℕ, ℤ, pos, is_neg, lt_ℤ, ◌||◌, not, Bool, if◌then◌else◌}

-- KERNEL_LOG_LEVEL_ALL
abbrev pub log_level_all : ℕ
log_level_all = 6

-- The level after the call, which is also its result
unfoldable pub kernel_set_log_level : ℤ → ℤ → ℤ
kernel_set_log_level current log_level =
    if is_neg log_level || lt_ℤ (pos log_level_all) log_level then current else log_level

-- Whether kernel_log_error and the other functions, whose levels are 1 to 5, print at a log level
unfoldable pub logs : ℕ → ℤ → Bool
logs level current = not (lt_ℤ current (pos level))
