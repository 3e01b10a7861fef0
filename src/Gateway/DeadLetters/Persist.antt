-- ===== src/Gateway/DeadLetters/Persist.antt =====
-- persistDeadLetter and handleDeadLetterQueue of
-- backend/cloudflare/proof-gateway-worker/src/queue-dead-letters.ts. A batch of statements runs as a
-- whole, or fails and changes nothing.

use Prim.Native.String.{◌++◌ as append}
use midnight_buildathons_bac.Prelude.{
  ℕ, zero, suc, ◌+◌, String, Bool, ◌||◌, Option, none, some, List, [], ◌∷◌, if◌then◌else◌, str_eq,
  max,
}
use midnight_buildathons_bac.Prelude.Int.{ℤ}
use midnight_buildathons_bac.Prelude.Tables.{upsert, insert_or_ignore}
use midnight_buildathons_bac.Gateway.DeadLetters.Identity.{
  Message, DeadLetterIdentity, dead_letter_identity,
}
use midnight_buildathons_bac.Gateway.DeadLetters.Affected.{
  DeadLetter, Alert, Notification, Event, Database, affected_state_statements,
}

-- The first characters of a text, of which each is one unit.
unfoldable pub slice : ℕ → String → String
slice n String.[] = String.[]
slice zero (String.◌∷◌ c s) = String.[]
slice (suc n) (String.◌∷◌ c s) = String.◌∷◌ c (slice n s)

unfoldable pub message_id : Message → String
message_id m = slice 200 m.id

unfoldable pub record_id : String → Message → String
record_id queue_name m = append queue_name (append ":" (message_id m))

unfoldable pub alert_key : String → Message → String
alert_key queue_name m = append "queue-dead-letter:" (record_id queue_name m)

abbrev or_unknown : Option String → String
or_unknown none = "unknown"
or_unknown (some text) = text

unfoldable pub summary : String → DeadLetterIdentity → String
summary queue_name identity = append "Cloudflare Queue " (
    append queue_name (
      append " exhausted retries for " (
        append (or_unknown identity.resource_type)
          (append " " (append (or_unknown identity.resource_id) ".")))))

abbrev pub is_record : String → DeadLetter → Bool
is_record id r = str_eq r.id id

abbrev pub observed_again : ℕ → ℤ → DeadLetter → DeadLetter
observed_again attempts now r = record r {
  delivery_attempts = max r.delivery_attempts attempts;
  observation_count = r.observation_count + 1;
  last_observed_at = now;
}

unfoldable pub first_letter : String → Message → ℤ → DeadLetter
first_letter queue_name m now = record {
  id = record_id queue_name m;
  queue_name = queue_name;
  message_id = message_id m;
  identity = dead_letter_identity m.body;
  delivery_attempts = max 1 m.attempts;
  observation_count = 1;
  first_observed_at = now;
  last_observed_at = now;
}

unfoldable pub record_dead_letter : String → Message → ℤ → List DeadLetter → List DeadLetter
record_dead_letter queue_name m now =
    upsert (is_record (record_id queue_name m)) (observed_again (max 1 m.attempts) now)
      (first_letter queue_name m now)

unfoldable pub record_alert : String → Message → ℤ → List Alert → List Alert
record_alert queue_name m now =
    let text = slice 500 (summary queue_name (dead_letter_identity m.body)) in
    upsert (λ r. str_eq r.alert_key (alert_key queue_name m))
      (λ r. record r {
        summary = text;
        last_observed_at = now;
        occurrence_count = r.occurrence_count + 1;
      })
      (record {
        alert_key = alert_key queue_name m;
        summary = text;
        first_observed_at = now;
        last_observed_at = now;
        occurrence_count = 1;
      })

-- The row's own identifier is fresh: only the deduplication key can be there already.
unfoldable pub notify : String → Message → ℤ → String → List Notification → List Notification
notify queue_name m now id =
    let key = append "alert-opened:" (alert_key queue_name m) in
    insert_or_ignore (λ r. str_eq r.dedupe_key key)
      (record {
        id = id;
        dedupe_key = key;
        alert_key = alert_key queue_name m;
        identity = dead_letter_identity m.body;
        created_at = now;
      })

unfoldable pub log_event : String → Message → ℤ → List Event → List Event
log_event queue_name m now =
    let id = append "event:" (record_id queue_name m) in
    insert_or_ignore (λ r. str_eq r.id id)
      (record {
        id = id;
        occurred_at = now;
        actor_identifier = queue_name;
        identity = dead_letter_identity m.body;
        correlation_id = record_id queue_name m;
      })

-- `id` is the fresh identifier of the notification.
unfoldable pub persist_dead_letter : String → Message → ℤ → String → Database → Database
persist_dead_letter queue_name m now id d =
    let d' = affected_state_statements (dead_letter_identity m.body) now d in
    record d' {
      dead_letters = record_dead_letter queue_name m now d.dead_letters;
      alerts = record_alert queue_name m now d.alerts;
      outbox = notify queue_name m now id d.outbox;
      events = log_event queue_name m now d.events;
    }

unfoldable pub is_dead_letter_queue : String → Bool
is_dead_letter_queue name =
    str_eq name "midnight-proof-jobs-dlq"
    || str_eq name "midnight-sponsor-jobs-dlq"
    || str_eq name "midnight-managed-source-jobs-dlq"

pub data Delivery : Type 0 where
  ack retry : Delivery

-- A message, the time, the notification's identifier, and whether the batch of statements runs.
pub record Attempt : Type 0 where
  pub message : Message
  pub now : ℤ
  pub notification_id : String
  pub persists : Bool

unfoldable pub handle_all : String → List Attempt → Database → Database × List Delivery
handle_all queue_name [] d = (d, [])
handle_all queue_name (a ∷ more) d =
    let d' =
      if a.persists
      then persist_dead_letter queue_name a.message a.now a.notification_id d
      else d in
    let rest = handle_all queue_name more d' in
    (rest.0, (if a.persists then ack else retry) ∷ rest.1)

abbrev retry_each : List Attempt → List Delivery
retry_each [] = []
retry_each (a ∷ more) = retry ∷ retry_each more

unfoldable pub handle_dead_letter_queue :
    String → List Attempt → Database → Database × List Delivery
handle_dead_letter_queue queue_name batch d =
    if is_dead_letter_queue queue_name then handle_all queue_name batch d else (d, retry_each batch)
