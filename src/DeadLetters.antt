-- ===== src/DeadLetters.antt =====
-- Backend/src/queue/services/queue.service.ts: jobs that failed for good. The queues of Bull, the lists of
-- Redis and the reading and writing of JSON are arguments. A job's data are the fields of an object, and
-- its queue is one that there is; options of Bull that are always the same are left out.
pub mod Requeued
use farm_exc.Prelude.{
  ℕ, ◌+◌, String, Bool, Option, none, some, List, [], ◌∷◌, length, ◌==◌, leb, str_eq, if◌then◌else◌,
}
use farm_exc.Workflow.Json.{Fields}

pub data JobStatus : Type 0 where
  pending active completed failed delayed : JobStatus

-- A job of Bull, as far as the service reads it.
pub record Job : Type 0 where
  pub id : ℕ
  pub name : String
  pub data_fields : Fields
  pub attempts : Option ℕ
  pub attempts_made : ℕ

-- What is written to a dead-letter queue.
pub record DlqItem : Type 0 where
  pub id : ℕ
  pub name : String
  pub data_fields : Fields
  pub error : String
  pub attempts : ℕ
  pub max_attempts : ℕ
  pub failed_at : ℕ

-- `n || default`.
abbrev pub or_default : ℕ → Option ℕ → ℕ
or_default default_attempts none = default_attempts
or_default default_attempts (some n) = if n == 0 then default_attempts else n

abbrev pub map_job_state : String → JobStatus
map_job_state state =
    if str_eq state "active"
    then active
    else if str_eq state "completed"
    then completed
    else if str_eq state "failed"
    then failed
    else if str_eq state "delayed"
    then delayed
    else pending

-- RPUSH, LRANGE from 0 to so many less one, and LTRIM from so many to the end; `add` of a queue of Bull
-- with a name, data and a number of attempts. A list or a queue goes by its queue's name.
pub record Queues (Db : Type 0) : Type 0 where
  pub r_push : Db → String → String → Db
  pub first : Db → String → ℕ → List String
  pub trim : Db → String → ℕ → Db
  pub add : Db → String → String → Fields → ℕ → Db

module _ {Db : Type 0} (queues : Queues Db) (stringify : DlqItem → String)
    (parse : String → Option DlqItem) where
  -- The job failed on its queue; one with attempts left is Bull's to try again.
  unfoldable pub handle_job_failure : ℕ → String → Job → String → Db → Db
  handle_job_failure now queue job error d =
      let max_attempts = or_default 1 job.attempts in
      if leb max_attempts job.attempts_made
      then queues.r_push d queue (
          stringify (record {
            id = job.id;
            name = job.name;
            data_fields = job.data_fields;
            error = error;
            attempts = job.attempts_made;
            max_attempts = max_attempts;
            failed_at = now;
          }))
      else d

  -- A new job with the data of the old one; none where there is no old one.
  unfoldable pub requeue_job : String → Option Job → Db → Option Db
  requeue_job queue none d = none
  requeue_job queue (some job) d =
      some (queues.add d queue job.name job.data_fields (or_default 3 job.attempts))

  -- The loop: an item that is no JSON is logged. The number is that of the new jobs.
  unfoldable pub requeue_each : String → List String → Db → ℕ × Db
  requeue_each queue [] d = (0, d)
  requeue_each queue (text ∷ texts) d = elim (parse text) [
    | none ↦ requeue_each queue texts d
    | some item ↦
        let (n, d') =
          requeue_each queue texts (
            queues.add d queue item.name item.data_fields
              (or_default 3 (some item.max_attempts))) in
        (1 + n, d')
  ]

  unfoldable pub requeue_from_dlq : String → ℕ → Db → ℕ × Db
  unfolding requeue_each
  requeue_from_dlq queue limit d =
      let (n, d') = requeue_each queue (queues.first d queue limit) d in
      (n, if n == 0 then d' else queues.trim d' queue n)
