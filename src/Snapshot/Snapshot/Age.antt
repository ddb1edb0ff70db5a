-- ===== src/Snapshot/Snapshot/Age.antt =====
-- internal/snapshot/snapshot.go: when a snapshot is stale.
use ticketbutler_proxy.Common.{ℕ, ◌<◌, ◌-◌, ◌≡◌, ◌↔◌, true, arith}
use ticketbutler_proxy.Int.{ℤ, pos, negsuc, int64_half, ◌+ℤ◌, ◌-ℤ◌, ◌<ℤ◌, saturate, ltb_ℤ}
use ticketbutler_proxy.Snapshot.Snapshot.{Snapshot, age, stale}

saturate_above :
    (d : ℤ) (limit : ℕ)
    → limit < int64_half - 1
    → (ltb_ℤ (pos limit) (saturate d) ≡ true) ↔ (pos limit <ℤ d)
unfolding saturate
saturate_above (pos n) limit h = ground arith
saturate_above (negsuc n) limit h = ground arith

-- A snapshot is reported as stale exactly when more time than the limit has passed since it was
-- fetched, where the limit is a duration below the greatest, although ages stop at the greatest.
pub stale_iff :
    {F : Type 0} (s : Snapshot F) (now : ℤ) (limit : ℕ)
    → limit < int64_half - 1
    → (stale s now (pos limit) ≡ true) ↔ (s.fetched_at +ℤ pos limit <ℤ now)
unfolding stale age ◌+ℤ◌ ◌-ℤ◌
stale_iff s now limit h = ground (arith, saturate_above (now -ℤ s.fetched_at) limit h)
