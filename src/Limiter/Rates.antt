-- ===== src/Limiter/Rates.antt =====
-- The limits of `LimiterConfig` (internal/app/config/config.go) and what
-- internal/service/limiter/limiter.go derives from them: a rate in tokens per minute, and a burst.
-- All settings are natural numbers.
use gateyes.Common.{ℕ, ◌*◌, ◌/◌, ltb, leb, if◌then◌else◌}

pub record LimiterConfig : Type 0 where
  pub global_qps : ℕ
  pub global_qps_burst : ℕ
  pub global_tpm : ℕ
  pub global_token_burst : ℕ
  pub global_rpm : ℕ
  pub global_rpm_burst : ℕ
  pub per_user_request_burst : ℕ
  pub tenant_tpm : ℕ
  pub tenant_tpm_burst : ℕ
  pub tenant_qps : ℕ
  pub tenant_qps_burst : ℕ
  pub tenant_rpm : ℕ
  pub tenant_rpm_burst : ℕ
  pub provider_tpm : ℕ
  pub provider_tpm_burst : ℕ
  pub provider_qps : ℕ
  pub provider_qps_burst : ℕ
  pub provider_rpm : ℕ
  pub provider_rpm_burst : ℕ
  pub model_tpm : ℕ
  pub model_tpm_burst : ℕ
  pub model_qps : ℕ
  pub model_qps_burst : ℕ
  pub model_rpm : ℕ
  pub model_rpm_burst : ℕ
  pub queue_size : ℕ

-- `value / 60.0` tokens a second.
unfoldable pub per_minute_rate : ℕ → ℕ
per_minute_rate value = if leb value 0 then 0 else value

unfoldable pub per_minute_burst : ℕ → ℕ → ℕ → ℕ
per_minute_burst limit configured disabled_default =
    if leb limit 0
    then 0
    else if ltb 0 configured
    then configured
    else (let burst = if leb (limit / 60) 0 then 1 else limit / 60 in
        if leb burst 0 then (if ltb 0 disabled_default then disabled_default else burst) else burst)

unfoldable pub token_burst : ℕ → ℕ → ℕ → ℕ
token_burst limit configured disabled_default =
    if leb limit 0 then disabled_default else per_minute_burst limit configured disabled_default

pub record Limit : Type 0 where
  pub rate : ℕ
  pub burst : ℕ

unfoldable pub request_limit : ℕ → ℕ → ℕ → ℕ → Limit
request_limit qps qps_burst rpm rpm_burst =
    if ltb 0 qps
    then record { rate = 60 * qps; burst = if leb qps_burst 0 then qps else qps_burst }
    else if ltb 0 rpm
    then record { rate = per_minute_rate rpm; burst = per_minute_burst rpm rpm_burst 0 }
    else record { rate = 0; burst = 0 }
