-- ===== src/Managed/Failure.antt =====
-- ManagedSourceError, httpFailure and retryAfterSeconds of
-- backend/cloudflare/proof-gateway-worker/src/managed-source-core.ts. The message of an error is left
-- out, and what a header was read as is an argument.
use midnight_buildathons_bac.Prelude.{
  ℕ, String, Bool, true, false, ◌||◌, ◌&&◌, Option, none, some, if◌then◌else◌, leb, ltb, ◌==◌,
}
use midnight_buildathons_bac.Prelude.Int.{ℤ, pos, ◌-ℤ◌, ltb_ℤ, div_floor}

pub data ManagedFailureKind : Type 0 where
  retryable action_required : ManagedFailureKind

-- `source_http_${status}` is `source_http` with the status in its own field.
pub data FailureCode : Type 0 where
  source_http source_authentication_failed source_not_found source_redirect_rejected : FailureCode
  source_response_too_large source_request_timeout source_network_unavailable : FailureCode
  source_invalid_json source_invalid_schema source_schema_unsupported : FailureCode
  source_identity_mismatch source_metadata_mismatch source_range_mismatch : FailureCode
  source_sample_limit_exceeded source_invalid_sample source_invalid_sample_id : FailureCode
  source_timestamp_outside_window source_invalid_value source_conflicting_duplicate : FailureCode

pub record ManagedSourceError : Type 0 where
  pub code : FailureCode
  pub kind : ManagedFailureKind
  pub http_status : Option ℕ
  pub retry_after_seconds : Option ℤ

-- A value, a ManagedSourceError, or another error with its message.
pub data Fetched {κ} (Value : Type κ) : Type κ where
  fails : ManagedSourceError → Fetched Value
  error : String → Fetched Value
  value : Value → Fetched Value

infixl 6 ◌>>=◌
abbrev pub ◌>>=◌ {κ μ} :
    {Value : Type κ} {Next : Type μ} → Fetched Value → (Value → Fetched Next) → Fetched Next
fails e >>= next = fails e
error message >>= next = error message
value v >>= next = next v

infixl 6 ◌>>◌
abbrev pub ◌>>◌ {μ} : {Next : Type μ} → Fetched (Unit {0}) → Fetched Next → Fetched Next
first >> next = first >>= (λ done. next)

-- `if (!condition) throw new Error(message)`
abbrev pub check : Bool → String → Fetched (Unit {0})
check true message = value tt
check false message = error message

-- `actionRequired(code, …)`, whose status is 200.
abbrev pub action_required_error : FailureCode → ManagedSourceError
action_required_error code = record {
  code = code;
  kind = action_required;
  http_status = some 200;
  retry_after_seconds = none;
}

-- `if (!condition) return actionRequired(code, …)`
abbrev pub demand : Bool → FailureCode → Fetched (Unit {0})
demand true code = value tt
demand false code = fails (action_required_error code)

-- The header Retry-After: a finite number, which is rounded up, a date, or neither.
pub data RetryAfter : Type 0 where
  absent : RetryAfter
  seconds : ℤ → RetryAfter
  date : ℤ → RetryAfter
  unreadable : RetryAfter

-- `Math.max(1, Math.min(3_600, value))`
abbrev clamp : ℤ → ℤ
clamp n = if ltb_ℤ n (pos 1) then pos 1 else (if ltb_ℤ (pos 3_600) n then pos 3_600 else n)

-- `Math.ceil(a / 1_000)`
abbrev ceil_seconds : ℤ → ℤ
ceil_seconds a = pos 0 -ℤ div_floor (pos 0 -ℤ a) 1_000

unfoldable pub retry_after_seconds : ℤ → RetryAfter → Option ℤ
retry_after_seconds now absent = none
retry_after_seconds now (seconds n) = some (clamp n)
retry_after_seconds now (date at) = some (clamp (ceil_seconds (at -ℤ now)))
retry_after_seconds now unreadable = none

unfoldable pub http_failure : ℤ → ℕ → RetryAfter → ManagedSourceError
unfolding retry_after_seconds
http_failure now status header =
    if status == 408 || status == 425 || status == 429 || leb 500 status
    then record {
      code = source_http;
      kind = retryable;
      http_status = some status;
      retry_after_seconds = retry_after_seconds now header;
    }
    else record {
      code =
          if status == 401 || status == 403
          then source_authentication_failed
          else (if status == 404
              then source_not_found
              else (if leb 300 status && ltb status 400
                  then source_redirect_rejected
                  else source_http));
      kind = action_required;
      http_status = some status;
      retry_after_seconds = none;
    }
