-- ===== src/Gateway/DeadLetters/Observations.antt =====
-- How often a message of a dead letter queue was seen
-- (backend/cloudflare/proof-gateway-worker/src/queue-dead-letters.ts).
use midnight_buildathons_bac.Prelude.{
  ℕ, ◌+◌, ◌≡◌, refl, ◌∙◌, max, lt→ltb, length, String, Option, none, some, List, [], ◌∷◌, arith,
}
use midnight_buildathons_bac.Prelude.Int.{ℤ}
use midnight_buildathons_bac.Prelude.Tables.{
  count_where, find_where, find-update, count-find_none, count-find_some,
}
use midnight_buildathons_bac.Gateway.DeadLetters.Identity.{Message}
use midnight_buildathons_bac.Gateway.DeadLetters.Affected.{Database, DeadLetter}
use midnight_buildathons_bac.Gateway.DeadLetters.Persist.{
  persist_dead_letter, record_id, message_id, first_letter, record_dead_letter, is_record,
  observed_again,
}
use text.Mathlib.TextPositions.{eq_refl}

-- The observations of one message: the deliveries after the first, each with its own time and attempts.
unfoldable pub deliver : String → Message → List (ℤ × ℕ × String) → Database → Database
deliver queue_name m [] d = d
deliver queue_name m (a ∷ more) d =
    deliver queue_name m more
      (persist_dead_letter queue_name (record m { attempts = a.1 }) a.0 a.2 d)

observed :
    (queue_name : String) (m : Message) (now : ℤ) (letters : List DeadLetter) (r : DeadLetter)
    → find_where (is_record (record_id queue_name m)) letters ≡ some r
    → find_where (is_record (record_id queue_name m)) (record_dead_letter queue_name m now letters)
      ≡ some (observed_again (max 1 m.attempts) now r)
unfolding record_dead_letter
observed queue_name m now letters r found =
    let id = record_id queue_name m in
    let there =
      lt→ltb 0 (count_where (is_record id) letters)
        (omega (arith, count-find_some (is_record id) letters found)) in
    rw there (
      find-update (is_record id) (observed_again (max 1 m.attempts) now) letters (λ x same. same)
        found)

-- The row of a message among the dead letters.
abbrev pub letter_of : String → Message → Database → Option DeadLetter
letter_of queue_name m d = find_where (is_record (record_id queue_name m)) d.dead_letters

counted :
    (queue_name : String) (m : Message) (more : List (ℤ × ℕ × String)) (d : Database)
    (r : DeadLetter)
    → letter_of queue_name m d ≡ some r
    → (r' : DeadLetter) × (letter_of queue_name m (deliver queue_name m more d) ≡ some r')
      × (r'.observation_count ≡ r.observation_count + length more)
      × (r'.first_observed_at ≡ r.first_observed_at)
unfolding deliver persist_dead_letter record_id message_id
counted queue_name m [] d r found = (r, found, omega arith, refl)
counted queue_name m (a ∷ more) d r found =
    let m' = record m { attempts = a.1 } in
    let d' = persist_dead_letter queue_name m' a.0 a.2 d in
    let r' = observed_again (max 1 a.1) a.0 r in
    let rest =
      counted queue_name m more d' r' (observed queue_name m' a.0 d.dead_letters r found) in
    (rest.0, rest.1, omega (arith, rest.2), rest.3)

first_observed :
    (queue_name : String) (m : Message) (now : ℤ) (letters : List DeadLetter)
    → find_where (is_record (record_id queue_name m)) letters ≡ none
    → (r : DeadLetter) × (find_where
          (is_record (record_id queue_name m))
          (record_dead_letter queue_name m now letters)
        ≡ some r)
      × (r.observation_count ≡ 1)
      × (r.first_observed_at ≡ now)
unfolding record_dead_letter first_letter
first_observed queue_name m now letters absent =
    let id = record_id queue_name m in
    (
      first_letter queue_name m now,
      rw (count-find_none (is_record id) letters absent) (rw (eq_refl id) refl),
      refl,
      refl,
    )

-- A message that is not yet recorded, delivered one time or more: its record counts every delivery, and
-- keeps the time of the first.
pub deliver-observation_count :
    (queue_name : String) (m : Message) (now : ℤ) (attempts : ℕ) (id : String)
    (more : List (ℤ × ℕ × String)) (d : Database)
    → letter_of queue_name m d ≡ none
    → (r : DeadLetter) × (letter_of queue_name m
          (deliver queue_name m ((now, attempts, id) ∷ more) d)
        ≡ some r)
      × (r.observation_count ≡ length more + 1)
      × (r.first_observed_at ≡ now)
unfolding deliver persist_dead_letter record_id message_id
deliver-observation_count queue_name m now attempts id more d absent =
    let m' = record m { attempts = attempts } in
    let once = first_observed queue_name m' now d.dead_letters absent in
    let d' = persist_dead_letter queue_name m' now id d in
    let rest = counted queue_name m more d' once.0 once.1 in
    (rest.0, rest.1, omega (arith, rest.2, once.2), rest.3 ∙ once.3)
