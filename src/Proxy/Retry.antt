-- ===== src/Proxy/Retry.antt =====
-- `RetryPolicy` and `proxy_failure_status` of pcc_gateway/proxy.py.
use pcc_gateway.Prelude.{
  ℕ, Bool, false, not, ◌||◌, List, [], ◌∷◌, Text, codes, text_eq, text_in, upper, if◌then◌else◌,
  leb_ℤ, ℤ, pos, map, Result, ok, err,
}

pub record RetryPolicy : Type 0 where
  pub attempts : ℤ
  pub methods : List Text

-- The one `ValueError` of the constructor.
pub data PolicyError : Type 0 where
  too_few_attempts : PolicyError

-- `RetryPolicy(attempts, methods)`
unfoldable pub new_policy : ℤ → List Text → Result PolicyError RetryPolicy
new_policy attempts methods =
    if leb_ℤ attempts (pos 0)
    then err too_few_attempts
    else ok (record { attempts = attempts; methods = map upper methods })

-- The failures before the upstream's head came.
abbrev pub early_failures : List Text
early_failures =
    codes "dns"
    ∷ codes "dns-timeout"
    ∷ codes "connect"
    ∷ codes "connect-timeout"
    ∷ codes "header-timeout"
    ∷ codes "reset-before-head"
    ∷ codes "timeout-before-head"
    ∷ codes "refused"
    ∷ []

-- `RetryPolicy.allows`
unfoldable pub allows : RetryPolicy → Text → ℤ → Bool → Text → Bool → Bool
allows p method attempt committed failure replayable =
    if not replayable || committed || leb_ℤ p.attempts attempt
    then false
    else if not (text_in (upper method) p.methods)
    then false
    else text_in failure early_failures

abbrev pub timeouts : List Text
timeouts =
    codes "dns-timeout"
    ∷ codes "connect-timeout"
    ∷ codes "request-body-timeout"
    ∷ codes "header-timeout"
    ∷ codes "body-timeout"
    ∷ []

unfoldable pub proxy_failure_status : Text → ℕ
proxy_failure_status failure =
    if text_in failure timeouts
    then if text_eq failure (codes "request-body-timeout") then 408 else 504
    else if text_in failure (codes "overloaded" ∷ codes "no-endpoint" ∷ [])
    then 503
    else 502
