-- ===== src/Time.antt =====
-- `struct timeval` and the macros of <sys/time.h> that event.cpp and minheap.cpp use. Seconds and
-- microseconds are signed; a time_t and a suseconds_t have 64 bits, and no sum here comes near that.
pub mod Order
use ilibevent.Base.{ℕ, suc, Bool, true, false, ◌&&◌, ◌||◌, not, ◌+◌, if◌then◌else◌}
use ilibevent.Base.Int.{ℤ, pos, negsuc, pos_part, neg_part, sub_ℕ, ltb_ℤ}

infixl 65 ◌+ℤ◌ ◌-ℤ◌
unfoldable pub ◌+ℤ◌ : ℤ → ℤ → ℤ
a +ℤ b = sub_ℕ (pos_part a + pos_part b) (neg_part a + neg_part b)

unfoldable pub ◌-ℤ◌ : ℤ → ℤ → ℤ
a -ℤ b = sub_ℕ (pos_part a + neg_part b) (neg_part a + pos_part b)

pub record Timeval : Type 0 where
  pub tv_sec : ℤ
  pub tv_usec : ℤ

abbrev pub million : ℤ
million = pos 1_000_000

-- timerclear
abbrev pub timerclear : Timeval
timerclear = record { tv_sec = pos 0; tv_usec = pos 0 }

-- timercmp(a, b, >)
unfoldable pub timercmp_gt : Timeval → Timeval → Bool
timercmp_gt a b =
    if ltb_ℤ a.tv_sec b.tv_sec
    then false
    else if ltb_ℤ b.tv_sec a.tv_sec
    then true
    else ltb_ℤ b.tv_usec a.tv_usec

unfoldable pub timeradd : Timeval → Timeval → Timeval
timeradd a b =
    let sec = a.tv_sec +ℤ b.tv_sec in
    let usec = a.tv_usec +ℤ b.tv_usec in
    if ltb_ℤ usec million
    then record { tv_sec = sec; tv_usec = usec }
    else record { tv_sec = sec +ℤ pos 1; tv_usec = usec -ℤ million }

unfoldable pub timersub : Timeval → Timeval → Timeval
timersub a b =
    let sec = a.tv_sec -ℤ b.tv_sec in
    let usec = a.tv_usec -ℤ b.tv_usec in
    if ltb_ℤ usec (pos 0)
    then record { tv_sec = sec -ℤ pos 1; tv_usec = usec +ℤ million }
    else record { tv_sec = sec; tv_usec = usec }
