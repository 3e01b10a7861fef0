-- ===== src/Agent/Pending/Laws.antt =====
-- What edge-device/midnight-transaction-agent/src/pending-transaction.ts keeps of a job's transaction.
use midnight_buildathons_bac.Prelude.{
  ℕ, String, true, false, ◌&&◌, Option, none, some, List, ◌≡◌, inl, inr, refl, sym, ap, ◌∙◌, subst,
  Bool-cases, ◌==◌, str_eq, eq_iff, length, leb, arith,
}
use midnight_buildathons_bac.Prelude.Results.{Result, ok, throw, Result-cases, ok-injective}
use midnight_buildathons_bac.Protocol.Identifier.{matches_identifier}
use midnight_buildathons_bac.Agent.Pending.{
  Content, transaction_file, PendingDeviceTransaction, Files, Codec, new_file, ReproofJob,
  is_archived, check_path, check_file, load_content, load_pending_device_transaction, save_over,
  save_pending_device_transaction, archive, may_retire, retire_checked,
  retire_pending_device_transaction_for_reproof,
}
use text.Mathlib.TextPositions.{eq_refl}

module _ (c : Codec) where
  open c use {serialized_sha256, sha256_IsHex, to_base64, from_base64, from-to_base64}

  abbrev load : String → Files → Result (Option PendingDeviceTransaction)
  load = load_pending_device_transaction c

  new_file-load :
      (id : String) (bytes : List ℕ) (now : String) (files : Files)
      → (length bytes == 0) ≡ false
      → matches_identifier id ≡ true
      → load id (record files { active = some (transaction_file (new_file c id bytes now)) })
        ≡ ok (some (record { bytes = bytes; serialized_sha256 = serialized_sha256 bytes }))
  unfolding load_pending_device_transaction load_content check_path check_file
  new_file-load id bytes now files full safe =
      rw
        (
          safe,
          eq_refl id,
          sha256_IsHex bytes,
          from-to_base64 bytes,
          full,
          eq_refl (serialized_sha256 bytes),
        )
        refl

  load-safe :
      (id : String) (files : Files) {p : Option PendingDeviceTransaction}
      → load id files ≡ ok p
      → matches_identifier id ≡ true
  unfolding load_pending_device_transaction check_path
  load-safe id files e = elim (Bool-cases (matches_identifier id)) [
    | inl safe ↦ safe
    | inr unsafe ↦ let impossible = rw unsafe at e in cc
  ]

  -- A save that found a transaction keeps the files.
  save-found :
      (id : String) (bytes : List ℕ) (now : String) (files : Files) (p : PendingDeviceTransaction)
      → load id files ≡ ok (some p)
      → (save_pending_device_transaction c id bytes now files).0 ≡ files
  unfolding save_pending_device_transaction save_over
  save-found id bytes now files p e = elim (Bool-cases (length bytes == 0)) [
    | inl empty ↦ rw empty refl
    | inr full ↦ rw (full, e) refl
  ]

  saved_over :
      (id : String) (bytes : List ℕ) (now : String) (files files' : Files)
      (p : PendingDeviceTransaction) (found : Option PendingDeviceTransaction)
      → (length bytes == 0) ≡ false
      → load id files ≡ ok found
      → save_over c id bytes now files (ok found) ≡ (files', ok p)
      → (load id files' ≡ ok (some p)) × (p.serialized_sha256 ≡ serialized_sha256 bytes)
  unfolding save_over
  saved_over id bytes now files files' p none full loaded e =
      let made = ok-injective _ _ (ap (λ x. x.1) e) in
      (
        subst (λ f. load id f ≡ ok (some p)) (ap (λ x. x.0) e)
            (new_file-load id bytes now files full (load-safe id files loaded)
              ∙ ap (λ x. ok (some x)) made),
        sym (ap (λ x. x.serialized_sha256) made),
      )
  saved_over id bytes now files files' p (some q) full loaded e =
      let kept = ap (λ x. x.0) e in
      let answer = ap (λ x. x.1) e in
      elim (Bool-cases (str_eq q.serialized_sha256 (serialized_sha256 bytes))) [
        | inr other ↦ let impossible = rw other at answer in cc
        | inl same ↦
            let this = ok-injective _ _ (rw same at answer) in
            (
              subst (λ f. load id f ≡ ok (some p)) kept (loaded ∙ ap (λ x. ok (some x)) this),
              sym (ap (λ x. x.serialized_sha256) this)
                  ∙ (eq_iff q.serialized_sha256 (serialized_sha256 bytes)).0 same,
            )
      ]

  saved :
      (id : String) (bytes : List ℕ) (now : String) (files files' : Files)
      (p : PendingDeviceTransaction)
      → save_pending_device_transaction c id bytes now files ≡ (files', ok p)
      → (load id files' ≡ ok (some p)) × (p.serialized_sha256 ≡ serialized_sha256 bytes)
  unfolding save_pending_device_transaction save_over
  saved id bytes now files files' p e = elim (Bool-cases (length bytes == 0)) [
    | inl empty ↦ let impossible = ap (λ x. x.1) (rw empty at e) in cc
    | inr full ↦
        let e' = rw full at e in
        elim (Result-cases (load id files)) [
          | inr thrown ↦ let impossible = ap (λ x. x.1) (rw thrown.1 at e') in cc
          | inl loaded ↦
              saved_over id bytes now files files' p loaded.0 full loaded.1 (rw loaded.1 at e')
        ]
  ]

  -- What a successful save returns has the digest of its bytes, and a load of the job's files returns it;
  -- a further save, of any bytes, leaves the files as they are.
  pub load-save :
      (id : String) (bytes : List ℕ) (now : String) (files files' : Files)
      (p : PendingDeviceTransaction) (others : List ℕ) (later : String)
      → save_pending_device_transaction c id bytes now files ≡ (files', ok p)
      → (load_pending_device_transaction c id files' ≡ ok (some p))
        × (p.serialized_sha256 ≡ serialized_sha256 bytes)
        × ((save_pending_device_transaction c id others later files').0 ≡ files')
  load-save id bytes now files files' p others later e =
      let first = saved id bytes now files files' p e in
      (first.0, first.1, save-found id others later files' p first.0)

  over-archived :
      (id : String) (bytes : List ℕ) (now : String) (files : Files)
      (found : Option PendingDeviceTransaction)
      → (save_over c id bytes now files (ok found)).0.archived ≡ files.archived
  unfolding save_over
  over-archived id bytes now files none = refl
  over-archived id bytes now files (some p) = refl

  save-archived :
      (id : String) (bytes : List ℕ) (now : String) (files : Files)
      → (save_pending_device_transaction c id bytes now files).0.archived ≡ files.archived
  unfolding save_pending_device_transaction save_over
  save-archived id bytes now files = elim (Bool-cases (length bytes == 0)) [
    | inl empty ↦ rw empty refl
    | inr full ↦ elim (Result-cases (load id files)) [
      | inr thrown ↦ rw (full, thrown.1) refl
      | inl loaded ↦ rw (full, loaded.1) (over-archived id bytes now files loaded.0)
    ]
  ]

  retire-again :
      (job : ReproofJob) (files : Files)
      → (leb 1 job.attempt_count && leb job.attempt_count 9_007_199_254_740_991) ≡ true
      → matches_identifier job.proof_job_id ≡ true
      → is_archived job.attempt_count files.archived ≡ true
      → retire_pending_device_transaction_for_reproof c job files ≡ (files, ok tt)
  unfolding retire_pending_device_transaction_for_reproof retire_checked check_path
  retire-again job files counted safe done = elim (Bool-cases (may_retire job)) [
    | inr not_now ↦ rw not_now refl
    | inl now ↦ rw (now, counted, safe, done) refl
  ]

  archive-archived :
      (job : ReproofJob) (files files' : Files) (content : Option Content)
      (loaded : Result (Option PendingDeviceTransaction))
      → archive c job files content loaded ≡ (files', ok tt)
      → is_archived job.attempt_count files'.archived ≡ true
  unfolding archive
  archive-archived job files files' none loaded e =
      subst (λ f. is_archived job.attempt_count f.archived ≡ true) (ap (λ x. x.0) e) (ground arith)
  archive-archived job files files' (some content) (throw m) e =
      let impossible = ap (λ x. x.1) e in cc
  archive-archived job files files' (some content) (ok q) e =
      subst (λ f. is_archived job.attempt_count f.archived ≡ true) (ap (λ x. x.0) e) (ground arith)

  retired :
      (job : ReproofJob) (files files' : Files)
      → may_retire job ≡ true
      → retire_pending_device_transaction_for_reproof c job files ≡ (files', ok tt)
      → ((leb 1 job.attempt_count && leb job.attempt_count 9_007_199_254_740_991) ≡ true)
        × (matches_identifier job.proof_job_id ≡ true)
        × (is_archived job.attempt_count files'.archived ≡ true)
  unfolding retire_pending_device_transaction_for_reproof retire_checked check_path
  retired job files files' now e =
      elim (Bool-cases (leb 1 job.attempt_count && leb job.attempt_count 9_007_199_254_740_991)) [
        | inr uncounted ↦ let impossible = ap (λ x. x.1) (rw (now, uncounted) at e) in cc
        | inl counted ↦ elim (Bool-cases (matches_identifier job.proof_job_id)) [
          | inr unsafe ↦ let impossible = ap (λ x. x.1) (rw (now, counted, unsafe) at e) in cc
          | inl safe ↦
              let e' = rw (now, counted, safe) at e in
              elim (Bool-cases (is_archived job.attempt_count files.archived)) [
                | inl done ↦ (
                  counted,
                  safe,
                  subst (λ f. is_archived job.attempt_count f.archived ≡ true)
                      (ap (λ x. x.0) (rw done at e')) done,
                )
                | inr first ↦ (
                  counted,
                  safe,
                  archive-archived job files files' files.active
                      (load_pending_device_transaction c job.proof_job_id files) (rw first at e'),
                )
              ]
        ]
      ]

  -- When a job that is queued again for a proof, admitted and without a transaction has been retired,
  -- and a new transaction was saved or refused after that, retiring the same attempt again changes no
  -- file: what was saved stays.
  pub retire-save :
      (job : ReproofJob) (files files' : Files) (bytes : List ℕ) (now : String)
      → may_retire job ≡ true
      → retire_pending_device_transaction_for_reproof c job files ≡ (files', ok tt)
      → retire_pending_device_transaction_for_reproof c job
          (save_pending_device_transaction c job.proof_job_id bytes now files').0
        ≡ ((save_pending_device_transaction c job.proof_job_id bytes now files').0, ok tt)
  retire-save job files files' bytes now may e =
      let done = retired job files files' may e in
      retire-again job (save_pending_device_transaction c job.proof_job_id bytes now files').0
        done.0 done.1 (rw (save-archived job.proof_job_id bytes now files') done.2)
