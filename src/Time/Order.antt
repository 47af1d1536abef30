-- ===== src/Time/Order.antt =====
-- The order of times.
use ilibevent.Base.{◌≡◌, true, false, arith}
use ilibevent.Time.{Timeval, timercmp_gt}

pub timercmp_asymm : (a b : Timeval) → timercmp_gt a b ≡ true → timercmp_gt b a ≡ false
unfolding timercmp_gt
timercmp_asymm a b h = ground arith

pub timercmp_trans :
    (a b c : Timeval) → timercmp_gt a b ≡ false → timercmp_gt b c ≡ false → timercmp_gt a c ≡ false
unfolding timercmp_gt
timercmp_trans a b c h k = ground arith
