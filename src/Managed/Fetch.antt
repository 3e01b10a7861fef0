-- ===== src/Managed/Fetch.antt =====
-- fetchFixedWindowMeasurements of
-- backend/cloudflare/proof-gateway-worker/src/managed-source-core.ts. What the source's interface
-- answers, and what is made of addresses, dates and JSON, are parameters.
use midnight_buildathons_bac.Prelude.{
  ℕ, String, Bool, true, false, ◌&&◌, Option, none, some, List, [], ◌∷◌, length, leb, if◌then◌else◌,
  ltb, ◌*◌,
}
use midnight_buildathons_bac.Prelude.Int.{ℤ, pos, ◌-ℤ◌, eqb_ℤ}
use midnight_buildathons_bac.Prelude.Num.{num_zero}
use midnight_buildathons_bac.Protocol.Day.{day_ms}
use midnight_buildathons_bac.Protocol.Temperature.{Rounding}
use midnight_buildathons_bac.Protocol.Extrema.{SensorRecord}
use midnight_buildathons_bac.Managed.Failure.{
  ManagedSourceError, Fetched, fails, error, value, ◌>>=◌, ◌>>◌, check, RetryAfter, http_failure,
  retryable, source_request_timeout, source_network_unavailable,
}
use midnight_buildathons_bac.Managed.Endpoint.{Url, validate_managed_endpoint}
use midnight_buildathons_bac.Managed.Response.{
  FixedWindowMeasurement, FixedWindowFetchInput, Json, bounded_body, parse_source_response,
}
use midnight_buildathons_bac.Managed.Summary.{Sums, HourlyMeasurementSummary, summarize}

-- An answer of the interface, with its body in chunks, or why there is none.
pub record HttpResponse : Type 0 where
  pub status : ℕ
  pub retry_after : RetryAfter
  pub content_length : Option ℕ
  pub chunks : List (List ℕ)

pub data Reply : Type 0 where
  answered : HttpResponse → Reply
  timed_out unreachable : Reply

pub record FixedWindowFetchResult : Type 0 where
  pub records : List SensorRecord
  pub summaries : List HourlyMeasurementSummary
  pub response_bytes : ℕ
  pub http_status : ℕ

abbrev no_reply : Bool → ManagedSourceError
no_reply timeout = record {
  code = if timeout then source_request_timeout else source_network_unavailable;
  kind = retryable;
  http_status = none;
  retry_after_seconds = none;
}

-- What the code calls: Date.parse, localeCompare, the rounding and the sums of doubles, and what
-- `new URL` and JSON.parse make of their input.
pub record Runtime : Type 0 where
  pub date_parse : String → Option ℤ
  pub locale_le : String → String → Bool
  pub rounding : Rounding
  pub sums : Sums
  pub url_parse : String → Option Url
  pub json_parse : List ℕ → Json

module _ (runtime : Runtime) where
  open runtime use {date_parse, locale_le, rounding, sums, url_parse, json_parse}

  abbrev pub record_of : String → FixedWindowMeasurement → SensorRecord
  record_of device_id m = record {
    device_id = device_id;
    timestamp = date_parse m.recorded_at;
    temperature = m.value;
    humidity = num_zero;
  }

  unfoldable pub records_of : String → List FixedWindowMeasurement → List SensorRecord
  records_of device_id [] = []
  records_of device_id (m ∷ ms) = record_of device_id m ∷ records_of device_id ms

  -- `response.ok`
  abbrev pub is_success : ℕ → Bool
  is_success status = leb 200 status && ltb status 300

  unfoldable pub receive :
      FixedWindowFetchInput → ℤ → ℤ → ℤ → HttpResponse → Fetched FixedWindowFetchResult
  receive input now start end response = do
    if is_success response.status
        then value tt
        else fails (http_failure now response.status response.retry_after)
    body ←
        bounded_body response.status response.content_length input.response_max_bytes
          response.chunks
    measurements ←
        parse_source_response date_parse locale_le rounding input start end (json_parse body)
    summaries ← summarize date_parse sums measurements start
    value (record {
      records = records_of input.device_id measurements;
      summaries = summaries;
      response_bytes = length body;
      http_status = response.status;
    })

  unfoldable pub receive_reply :
      FixedWindowFetchInput → ℤ → ℤ → ℤ → Reply → Fetched FixedWindowFetchResult
  receive_reply input now start end (answered response) = receive input now start end response
  receive_reply input now start end timed_out = fails (no_reply true)
  receive_reply input now start end unreachable = fails (no_reply false)

  -- The checks of the interval and of the limit, then the request.
  unfoldable pub fetch_interval :
      FixedWindowFetchInput → ℤ → Reply → Option ℤ → Option ℤ → Fetched FixedWindowFetchResult
  fetch_interval input now reply none end = error "Managed source interval must be exactly 24 hours"
  fetch_interval input now reply (some start) none =
      error "Managed source interval must be exactly 24 hours"
  fetch_interval input now reply (some start) (some end) = do
    check (eqb_ℤ (end -ℤ start) (pos day_ms)) "Managed source interval must be exactly 24 hours"
    check (leb 1_024 input.response_max_bytes && leb input.response_max_bytes (4 * 1_024 * 1_024))
        "Managed source response byte limit is invalid"
    receive_reply input now start end reply

  unfoldable pub fetch_fixed_window_measurements :
      FixedWindowFetchInput → ℤ → Reply → Fetched FixedWindowFetchResult
  fetch_fixed_window_measurements input now reply = do
    endpoint ← validate_managed_endpoint (url_parse input.endpoint_url)
    fetch_interval input now reply (date_parse input.period_start) (date_parse input.period_end)
