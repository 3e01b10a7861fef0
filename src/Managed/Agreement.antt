-- ===== src/Managed/Agreement.antt =====
-- The summaries of backend/cloudflare/proof-gateway-worker/src/managed-source-core.ts and the hourly
-- slots that shared/measurement-protocol makes of the same measurements.
use midnight_buildathons_bac.Prelude.{
  ℕ, suc, ◌*◌, ◌≡◌, refl, sym, subst, String, true, false, ◌&&◌, Option, none, some, List, [], ◌∷◌,
  inl, inr, Bool-cases, All, replicate, arith, leb, ◌==◌, if◌then◌else◌,
}
use midnight_buildathons_bac.Prelude.Int.{ℤ, pos, ◌-ℤ◌, eqb_ℤ}
use midnight_buildathons_bac.Prelude.Results.{ok}
use midnight_buildathons_bac.Protocol.Day.{day_ms}
use midnight_buildathons_bac.Protocol.Extrema.{HourlyExtremaSlot, empty_slots, add_records}
use midnight_buildathons_bac.Managed.Failure.{value}
use midnight_buildathons_bac.Managed.Response.{
  FixedWindowFetchInput, bounded_body, parse_source_response, FixedWindowMeasurement,
}
use midnight_buildathons_bac.Managed.Summary.{
  Accumulator, empty_accumulator, Sums, summary_of, summaries_from, summarize,
  HourlyMeasurementSummary,
}
use midnight_buildathons_bac.Managed.Fetch.{
  Runtime, records_of, FixedWindowFetchResult, HttpResponse, Reply, answered, timed_out,
  unreachable, is_success, receive, receive_reply, fetch_interval, fetch_fixed_window_measurements,
}
use midnight_buildathons_bac.Managed.Accepted.{
  IsAccepted, bind-value, value-injective, parse_source_response-All,
}
use midnight_buildathons_bac.Managed.Endpoint.{validate_managed_endpoint}
use midnight_buildathons_bac.Managed.Hours.{Same, AllSame, accumulate-AllSame, empty_slots-AllSame}

-- A summary and a slot say the same of an hour: how many measurements there are, and when there are
-- any the least and the greatest.
abbrev pub Agrees : HourlyMeasurementSummary → HourlyExtremaSlot → Type 0
Agrees y h =
    (y.sample_count ≡ h.sample_count)
    × (y.minimum ≡ (if h.present then some h.minimum else none))
    × (y.maximum ≡ (if h.present then some h.maximum else none))

abbrev pub AllAgree : List HourlyMeasurementSummary → List HourlyExtremaSlot → Type 0
AllAgree [] [] = Unit
AllAgree [] (h ∷ hs) = ⊥
AllAgree (y ∷ ys) [] = ⊥
AllAgree (y ∷ ys) (h ∷ hs) = Agrees y h × AllAgree ys hs

module _ (s : Sums) (date_parse : String → Option ℤ) (start : ℤ) where
  summary_of-Agrees :
      (i : ℕ) (a : Accumulator) (h : HourlyExtremaSlot)
      → Same a h
      → Agrees (summary_of date_parse s start i a) h
  summary_of-Agrees i a h same = elim same.1 [
    | inl first ↦ (sym same.0, rw (first.0, first.1) refl, rw (first.0, first.1) refl)
    | inr more ↦
        let counted : (a.count == 0) ≡ false = ground (arith, more.0) in
        (sym same.0, rw (counted, more.1, more.2) refl, rw (counted, more.1, more.3) refl)
  ]

  summaries_from-AllAgree :
      (i : ℕ) (xs : List Accumulator) (hs : List HourlyExtremaSlot)
      → AllSame xs hs
      → AllAgree (summaries_from date_parse s start i xs) hs
  unfolding summaries_from
  summaries_from-AllAgree i [] [] same = tt
  summaries_from-AllAgree i [] (h ∷ hs) same = same
  summaries_from-AllAgree i (a ∷ xs) [] same = same
  summaries_from-AllAgree i (a ∷ xs) (h ∷ hs) same =
      (summary_of-Agrees i a h same.0, summaries_from-AllAgree (suc i) xs hs same.1)

-- Of a result: the instant its period starts, and the slots of its records.
abbrev pub ResultAgrees : Runtime → FixedWindowFetchInput → FixedWindowFetchResult → Type 0
ResultAgrees runtime input result =
    (start : ℤ) × (hours : List HourlyExtremaSlot) × (runtime.date_parse input.period_start
      ≡ some start)
    × (add_records runtime.rounding start (empty_slots 24 0) result.records ≡ ok hours)
    × AllAgree result.summaries hours

module _ (runtime : Runtime) (input : FixedWindowFetchInput) (start end now : ℤ) where
  open runtime use {date_parse, locale_le, rounding, sums, json_parse}

  received :
      (ms : List FixedWindowMeasurement) {ys : List HourlyMeasurementSummary}
      → eqb_ℤ (end -ℤ start) (pos day_ms) ≡ true
      → All (IsAccepted date_parse locale_le rounding start end) ms
      → summarize date_parse sums ms start ≡ value ys
      → (hours : List HourlyExtremaSlot) × (add_records rounding start
            (empty_slots 24 0)
            (records_of runtime input.device_id ms)
          ≡ ok hours)
        × AllAgree ys hours
  unfolding summarize empty_slots
  received ms day accepted e =
      let all =
        accumulate-AllSame runtime input.device_id start end ms (replicate 24 empty_accumulator)
          (empty_slots 24 0) day (empty_slots-AllSame 24 0) refl accepted in
      let same = value-injective _ _ (rw all.2 at e) in
      (
        all.1,
        all.3,
        subst (λ y. AllAgree y all.1) same
            (summaries_from-AllAgree sums date_parse start 0 all.0 all.1 all.4),
      )

  receive-agrees :
      (response : HttpResponse) {result : FixedWindowFetchResult}
      → date_parse input.period_start ≡ some start
      → eqb_ℤ (end -ℤ start) (pos day_ms) ≡ true
      → receive runtime input now start end response ≡ value result
      → ResultAgrees runtime input result
  unfolding receive
  receive-agrees response dated day e = elim (Bool-cases (is_success runtime response.status)) [
    | inr failed ↦ let impossible = rw failed at e in cc
    | inl success ↦
        let body =
          bind-value
            (bounded_body response.status response.content_length input.response_max_bytes
              response.chunks)
            _ (rw success at e) in
        let parsed =
          bind-value
            (parse_source_response date_parse locale_le rounding input start end
              (json_parse body.0))
            _ body.2 in
        let summed = bind-value (summarize date_parse sums parsed.0 start) _ parsed.2 in
        let accepted =
          parse_source_response-All date_parse locale_le rounding start end input
            (json_parse body.0) parsed.1 in
        let slots = received parsed.0 day accepted summed.1 in
        subst (ResultAgrees runtime input) (value-injective _ _ summed.2)
          (start, slots.0, dated, slots.1, slots.2)
  ]

  receive_reply-agrees :
      (reply : Reply) {result : FixedWindowFetchResult}
      → date_parse input.period_start ≡ some start
      → eqb_ℤ (end -ℤ start) (pos day_ms) ≡ true
      → receive_reply runtime input now start end reply ≡ value result
      → ResultAgrees runtime input result
  unfolding receive_reply
  receive_reply-agrees (answered response) dated day e = receive-agrees response dated day e
  receive_reply-agrees timed_out dated day e = cc
  receive_reply-agrees unreachable dated day e = cc

fetch_interval-agrees :
    (runtime : Runtime) (input : FixedWindowFetchInput) (now : ℤ) (reply : Reply)
    (start end : Option ℤ) {result : FixedWindowFetchResult}
    → runtime.date_parse input.period_start ≡ start
    → fetch_interval runtime input now reply start end ≡ value result
    → ResultAgrees runtime input result
unfolding fetch_interval
fetch_interval-agrees runtime input now reply none end dated e = cc
fetch_interval-agrees runtime input now reply (some start) none dated e = cc
fetch_interval-agrees runtime input now reply (some start) (some end) dated e =
    elim (Bool-cases (eqb_ℤ (end -ℤ start) (pos day_ms))) [
      | inr other ↦ let impossible = rw other at e in cc
      | inl day ↦
          let e' = rw day at e in
          elim (Bool-cases (
            leb 1_024 input.response_max_bytes
            && leb input.response_max_bytes (4 * 1_024 * 1_024))) [
              | inr unbounded ↦ let impossible = rw unbounded at e' in cc
              | inl bounded ↦
                  receive_reply-agrees runtime input start end now reply dated day
                    (rw bounded at e')
            ]
    ]

-- When a fetch returns a result, whatever the source's interface answered: its period starts at an
-- instant, the measurement protocol accepts every record of the result as a reading of the day that
-- starts there, and of each of the 24 hours the summary and the protocol's slot agree on the number of
-- measurements and on the least and the greatest of them.
pub fetch_fixed_window_measurements-agrees :
    (runtime : Runtime) (input : FixedWindowFetchInput) (now : ℤ) (reply : Reply)
    (result : FixedWindowFetchResult)
    → fetch_fixed_window_measurements runtime input now reply ≡ value result
    → (start : ℤ) × (hours : List HourlyExtremaSlot) × (runtime.date_parse input.period_start
        ≡ some start)
      × (add_records runtime.rounding start (empty_slots 24 0) result.records ≡ ok hours)
      × AllAgree result.summaries hours
unfolding fetch_fixed_window_measurements
fetch_fixed_window_measurements-agrees runtime input now reply result e =
    let checked =
      bind-value (validate_managed_endpoint (runtime.url_parse input.endpoint_url)) _ e in
    fetch_interval-agrees runtime input now reply (runtime.date_parse input.period_start)
      (runtime.date_parse input.period_end) refl checked.2
