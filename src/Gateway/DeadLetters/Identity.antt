-- ===== src/Gateway/DeadLetters/Identity.antt =====
-- deadLetterIdentity of backend/cloudflare/proof-gateway-worker/src/queue-dead-letters.ts: what a message
-- is about. A body is its fields that are texts.

use midnight_buildathons_bac.Prelude.{ℕ, String, ◌||◌, Option, none, some, if◌then◌else◌, str_eq}
use midnight_buildathons_bac.Protocol.Identifier.{matches_identifier}

-- The fields of a body that is an object; `none` where a field is no text.
pub record Body : Type 0 where
  pub kind : Option String
  pub proof_job_id : Option String
  pub operation_id : Option String
  pub source_id : Option String
  pub run_id : Option String

-- `none` is a body that is no object.
pub record Message : Type 0 where
  pub id : String
  pub body : Option Body
  pub attempts : ℕ

pub record DeadLetterIdentity : Type 0 where
  pub payload_kind : String
  pub resource_type : Option String
  pub resource_id : Option String

unfoldable pub safe_identifier : Option String → Option String
unfolding matches_identifier
safe_identifier none = none
safe_identifier (some value) = if matches_identifier value then some value else none

abbrev pub or_malformed : Option String → String
or_malformed none = "malformed"
or_malformed (some kind) = kind

unfoldable pub identity_of_kind : String → Body → DeadLetterIdentity
unfolding safe_identifier
identity_of_kind kind body =
    if str_eq kind "admit-proof" || str_eq kind "sponsor-transaction"
    then record {
      payload_kind = kind;
      resource_type = some "proof-job";
      resource_id = safe_identifier body.proof_job_id;
    }
    else (if str_eq kind "browser-device-provisioning"
        then record {
          payload_kind = kind;
          resource_type = some "device-registration";
          resource_id = safe_identifier body.operation_id;
        }
        else (if str_eq kind "browser-policy-provisioning"
            then record {
              payload_kind = kind;
              resource_type = some "policy-registration";
              resource_id = safe_identifier body.operation_id;
            }
            else (if str_eq kind "provision-source"
                then record {
                  payload_kind = kind;
                  resource_type = some "managed-source";
                  resource_id = safe_identifier body.source_id;
                }
                else (if str_eq kind "fetch-window" || str_eq kind "attest-window"
                    then record {
                      payload_kind = kind;
                      resource_type = some "managed-source-run";
                      resource_id = safe_identifier body.run_id;
                    }
                    else record {
                      payload_kind = kind;
                      resource_type = none;
                      resource_id = none;
                    }))))

unfoldable pub dead_letter_identity : Option Body → DeadLetterIdentity
unfolding identity_of_kind safe_identifier
dead_letter_identity none = record {
  payload_kind = "malformed";
  resource_type = none;
  resource_id = none;
}
dead_letter_identity (some body) = identity_of_kind (or_malformed (safe_identifier body.kind)) body
