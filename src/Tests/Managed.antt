-- ===== src/Tests/Managed.antt =====
-- A source that answers with two measurements of one day, one of which it sends twice.
use midnight_buildathons_bac.Prelude.{
  ◌≡◌, refl, String, true, Option, none, some, List, [], ◌∷◌, str_eq, if◌then◌else◌,
}
use midnight_buildathons_bac.Prelude.Int.{ℤ, pos, ◌-ℤ◌, ◌+ℤ◌, div_floor}
use midnight_buildathons_bac.Prelude.Num.{fin}
use midnight_buildathons_bac.Prelude.Results.{ok}
use midnight_buildathons_bac.Protocol.Temperature.{Rounding, encode_temperature}
use midnight_buildathons_bac.Protocol.Extrema.{HourlyExtremaSlot, add_records, empty_slots}
use midnight_buildathons_bac.Protocol.Identifier.{
  is_space, trim_start, trim_end, trim, is_alphanumeric, is_identifier_code, all_identifier_codes,
  matches_identifier,
}
use midnight_buildathons_bac.Managed.Failure.{value, absent}
use midnight_buildathons_bac.Managed.Endpoint.{
  Url, validate_managed_endpoint, codes, starts_with, reverse_onto, ends_with, split_from,
  all_digits, is_part, number_of, is_private_address, is_private_parts, is_private_ipv4,
  strip_brackets, has_code, eq_codes, is_blocked_ipv6, has_blocked_suffix, is_public_https,
  has_parameter,
}
use midnight_buildathons_bac.Managed.Response.{
  FixedWindowFetchInput, Json, json_object, Sample, object, read_chunks, bounded_body, keep_unique,
  require_echo, is_supported, add_sample, add_samples, insert_measurement, sort_measurements,
  parse_samples, parse_source_response,
}
use midnight_buildathons_bac.Managed.Summary.{
  Sums, accumulate_at, accumulate, summaries_from, summarize,
}
use midnight_buildathons_bac.Managed.Fetch.{
  Runtime, Reply, answered, FixedWindowFetchResult, fetch_fixed_window_measurements, records_of,
  receive, receive_reply, fetch_interval,
}
use midnight_buildathons_bac.Managed.Agreement.{AllAgree, fetch_fixed_window_measurements-agrees}

abbrev rounding : Rounding
rounding = record { centi = λ a. a; centi_mono = λ a b h. h }

abbrev sums : Sums
sums = record { add = λ x y. x; divide = λ x n. x }

-- The days' ends and two instants.
abbrev date_parse : String → Option ℤ
date_parse text =
    if str_eq text "2026-01-01T00:00:00.000Z"
    then some (pos 1767225600000)
    else (if str_eq text "2026-01-02T00:00:00.000Z"
        then some (pos 1767312000000)
        else (if str_eq text "2026-01-01T05:30:00.000Z"
            then some (pos 1767245400000)
            else (if str_eq text "2026-01-01T23:59:59.999Z"
                then some (pos 1767311999999)
                else none)))

abbrev url : Url
url = record {
  protocol = "https:";
  username = "";
  password = "";
  hash = "";
  port = "";
  hostname = "api.example.com";
  parameters = [];
  href = "https://api.example.com/";
}

abbrev first : Sample
first = object (some "late") (some "2026-01-01T23:59:59.999Z") (some (fin (pos 2150)))

abbrev second : Sample
second = object (some " early ") (some "2026-01-01T05:30:00.000Z") (some (fin (pos 1990)))

abbrev json : Json
json = json_object (record {
  schema_version = some 1;
  source_id = some "sensor-1";
  sensor_type = some "temperature";
  unit = some "°C";
  from = some "2026-01-01T00:00:00.000Z";
  to = some "2026-01-02T00:00:00.000Z";
  measurements = some (first ∷ second ∷ first ∷ []);
})

abbrev runtime : Runtime
runtime = record {
  date_parse = date_parse;
  locale_le = λ a b. true;
  rounding = rounding;
  sums = sums;
  url_parse = λ text. some url;
  json_parse = λ body. json;
}

abbrev input : FixedWindowFetchInput
input = record {
  endpoint_url = "https://api.example.com/";
  source_sensor_id = "sensor-1";
  device_id = "managed-1";
  sensor_type = "temperature";
  unit = "°C";
  period_start = "2026-01-01T00:00:00.000Z";
  period_end = "2026-01-02T00:00:00.000Z";
  response_max_bytes = 4096;
}

abbrev reply : Reply
reply = answered (record {
  status = 200;
  retry_after = absent;
  content_length = none;
  chunks = (1 ∷ 2 ∷ []) ∷ (3 ∷ []) ∷ [];
})

returned :
    (result : FixedWindowFetchResult) × (fetch_fixed_window_measurements runtime input (pos 0) reply
      ≡ value result)
unfolding codes starts_with reverse_onto ends_with split_from all_digits is_part number_of
    is_private_address is_private_parts is_private_ipv4 strip_brackets has_code eq_codes
    is_blocked_ipv6 has_blocked_suffix is_public_https has_parameter validate_managed_endpoint
    read_chunks bounded_body keep_unique require_echo is_supported add_sample add_samples
    insert_measurement sort_measurements parse_samples parse_source_response accumulate_at
    accumulate summaries_from summarize records_of receive receive_reply fetch_interval
    fetch_fixed_window_measurements is_space trim_start trim_end trim is_alphanumeric
    is_identifier_code all_identifier_codes matches_identifier encode_temperature ◌-ℤ◌ ◌+ℤ◌
    div_floor
returned = (_, refl)

fetch_fixed_window_measurements-agrees_example :
    (start : ℤ) × (hours : List HourlyExtremaSlot) × (date_parse "2026-01-01T00:00:00.000Z"
      ≡ some start)
    × (add_records rounding start (empty_slots 24 0) returned.0.records ≡ ok hours)
    × AllAgree returned.0.summaries hours
fetch_fixed_window_measurements-agrees_example =
    fetch_fixed_window_measurements-agrees runtime input (pos 0) reply returned.0 returned.1
