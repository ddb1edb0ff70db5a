-- ===== src/Ticketbutler/Client/Backoff.antt =====
-- internal/ticketbutler/client.go: how long the client sleeps between two attempts.
use ticketbutler_proxy.Common.{ℕ, suc, ◌-◌, ◌*◌, ◌^◌, ◌≤◌, ◌<◌, ◌≡◌, refl, arith}
use ticketbutler_proxy.Int.{pos, negsuc, to_int64}
use ticketbutler_proxy.Ticketbutler.Client.{second, backoff}
use native.Mathlib.Nat.{pow-le-pow_right}

two_pow_le_28 : (k : ℕ) → k < 29 → 2 ^ k ≤ 2 ^ 28
two_pow_le_28 k h = pow-le-pow_right {n = 2} (omega arith) {i = k} {j = 28} (omega arith)

pub to_int64_of_lt : (n : ℕ) → n < 2 ^ 63 → to_int64 n ≡ pos n
unfolding to_int64
to_int64_of_lt n h = ground arith

-- Up to the 29th attempt the sleep is thirty seconds, doubled for each attempt before.
pub backoff-doubles : (k : ℕ) → k < 29 → backoff (suc k) ≡ pos (30 * second * 2 ^ k)
unfolding backoff
backoff-doubles k h =
    let e : suc k - 1 ≡ k = omega arith in
    rw e (to_int64_of_lt (30 * second * 2 ^ k) (omega (arith, two_pow_le_28 k h)))

-- The 30th attempt's sleep overflows: it is negative, and so no wait at all.
backoff_overflows : backoff 30 ≡ negsuc 2340616713709551615
unfolding backoff to_int64
backoff_overflows = refl
