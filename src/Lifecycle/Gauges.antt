-- ===== src/Lifecycle/Gauges.antt =====
-- The admission gauges of `GatewayLifecycle` of pcc_gateway/lifecycle.py under every order of calls.
use pcc_gateway.Prelude.{
  ℕ, ◌≤◌, ◌≡◌, false, ◌||◌, ℤ, pos, negsuc, ◌+ℤ◌, leb_ℤ, ltb_ℤ, neg, is_negative, arith,
}
use pcc_gateway.Lifecycle.Metrics.{
  Metrics, AdmissionLimits, connections_active, requests_active, requests_queued, upstream_active,
  buffered_bytes,
}
use pcc_gateway.Lifecycle.State.{Lifecycle}

-- A gauge that is not negative and in its limit.
abbrev pub Within : ℕ → ℤ → Type 0
Within limit (pos n) = n ≤ limit
Within limit (negsuc n) = ⊥

-- Every gauge is in its limit, and the queue's gauge is the queue's counter.
pub record InLimits (limits : AdmissionLimits) (m : Metrics) (queued : ℕ) : Type 0 where
  pub connections : Within limits.max_connections (m connections_active)
  pub requests : Within limits.max_requests (m requests_active)
  pub upstream : Within limits.max_upstream_active (m upstream_active)
  pub buffered : Within limits.max_buffered_bytes (m buffered_bytes)
  pub gauge : m requests_queued ≡ pos queued
  pub queue : queued ≤ limits.max_queued_requests

abbrev pub IsAdmissible : Lifecycle → Type 0
IsAdmissible l = InLimits l.limits l.metrics l.queued_requests

pub Within-up : (k : ℕ) (z : ℤ) → Within k z → leb_ℤ (pos k) z ≡ false → Within k (z +ℤ pos 1)
unfolding ◌+ℤ◌
Within-up k (pos n) h e = ground arith
Within-up k (negsuc n) h e = absurd h

pub Within-down : (k : ℕ) (z : ℤ) → Within k z → leb_ℤ z (pos 0) ≡ false → Within k (z +ℤ negsuc 0)
unfolding ◌+ℤ◌
Within-down k (pos n) h e = ground arith
Within-down k (negsuc n) h e = absurd h

pub Within-add :
    (k : ℕ) (z a : ℤ)
    → Within k z
    → is_negative a ≡ false
    → ltb_ℤ (pos k) (z +ℤ a) ≡ false
    → Within k (z +ℤ a)
unfolding ◌+ℤ◌
Within-add k (pos n) (pos a) h e f = ground arith
Within-add k (pos n) (negsuc a) h e f = absurd (cc)
Within-add k (negsuc n) a h e f = absurd h

pub Within-sub :
    (k : ℕ) (z a : ℤ) → Within k z → (is_negative a || ltb_ℤ z a) ≡ false → Within k (z +ℤ neg a)
unfolding ◌+ℤ◌
Within-sub k (pos n) (pos a) h e = ground arith
Within-sub k (pos n) (negsuc a) h e = absurd (cc)
Within-sub k (negsuc n) a h e = absurd h
