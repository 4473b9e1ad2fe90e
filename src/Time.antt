-- ===== src/Time.antt =====
-- `struct timeval`, and the time arithmetic of stats.c.
use chronos_xserver.Prelude.{ℕ, ◌+◌, ◌*◌, ◌/◌, ◌≡◌, ℤ, pos, ◌-ℤ◌, int_laws}

pub record Timeval : Type 0 where
  pub tv_sec : ℕ
  pub tv_usec : ℕ

-- Milliseconds, as `diff_time` and the calls of aup.c compute them.
abbrev pub msec : Timeval → ℕ
msec t = t.tv_sec * 1000 + t.tv_usec / 1000

abbrev pub usec : Timeval → ℕ
usec t = t.tv_sec * 1000000 + t.tv_usec

pub diff_time : Timeval → Timeval → ℤ
diff_time start end = pos (msec end) -ℤ pos (msec start)

unfoldable pub udiff_time : Timeval → Timeval → ℤ
udiff_time start end = pos (usec end) -ℤ pos (usec start)

pub udiff_time-later :
    (start end : Timeval) (d : ℕ) → usec start + d ≡ usec end → udiff_time start end ≡ pos d
unfolding udiff_time
udiff_time-later start end d h = omega (int_laws, h)
