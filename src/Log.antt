-- ===== src/Log.antt =====
-- The log: mod/utils/log/src/log.c.
mod Messages
mod Tests
use freak.Prelude.{
  ℕ, ◌+◌, ◌/◌, ◌%◌, ltb, leb, Bool, true, false, List, [], ◌∷◌, ◌++◌, take, length, Option, some,
  none, ◌==◌, if◌then◌else◌,
}
use freak.Proto.{◌>>=◌, ◌>>◌, check}

-- `s_level` and `s_dirmask`, with what `puts` wrote and `nnm_push_send` sent so far, the last one
-- first.
pub record Log : Type 0 where
  pub level : ℕ
  pub dirmask : ℕ
  pub printed : List (List ℕ)
  pub sent : List (List ℕ)

-- At the start: `LOG_LV_INFO` and `LOG_DIR_LOCAL`.
abbrev pub log_start : Log
log_start = record { level = 3; dirmask = 1; printed = []; sent = [] }

-- `log_setlevel` and `log_setdir`: whether they return 0, and the log. `LOG_LV_MAX` is 6, and
-- `LOG_DIR_MAX` is 8.
pub log_setlevel : ℕ → Log → Bool × Log
log_setlevel level s = if leb 6 level then (false, s) else (true, record s { level = level })

pub log_setdir : ℕ → Log → Bool × Log
log_setdir mask s = if leb 8 mask then (false, s) else (true, record s { dirmask = mask })

-- The string in `buf` after both calls of `snprintf`, with the last byte set to 0, without its end. The
-- prefix, a time and two numbers, is shorter than `buf`.
abbrev pub log_text : List ℕ → List ℕ → List ℕ
log_text prefix body = take 2047 (prefix ++ body)

-- `buf` of `log_printf`: the string with its end, then what was there.
abbrev pub log_buf : List ℕ → List ℕ → List ℕ → List ℕ
log_buf prefix body old = take 2048 (log_text prefix body ++ 0 ∷ old)

-- `log_printf`: what it returns and the log. `prefix` and `body` are the texts that the two calls
-- print, and `old` is what the memory of `buf` had. A read behind `buf` is a fault.
pub log_printf : ℕ → List ℕ → List ℕ → List ℕ → Log → Option (ℕ × Log)
log_printf level prefix body old s =
    if ltb s.level level
    then some (0, s)
    else (let n : ℕ = length prefix + length body in
        let s1 : Log =
          if s.dirmask % 2 == 1
          then record s { printed = log_text prefix body ∷ s.printed }
          else s in
        if s1.dirmask / 4 % 2 == 1
        then (check (leb (n + 1) 2048)
            >> some (n + 1, record s1 { sent = take (n + 1) (log_buf prefix body old) ∷ s1.sent }))
        else some (n + 1, s1))
