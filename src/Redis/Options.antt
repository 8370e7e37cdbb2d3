-- ===== src/Redis/Options.antt =====
-- src/RedisDriver.ts: what the driver over Redis asks of BullMQ. The random half of a child's id is
-- minted in the order of the calls: `uuid n` is the n-th.
pub mod Laws
use jubs.Common.{ℕ, suc, ◌+◌, ◌/◌, Bool, true, false, Option, none, some, List, [], ◌∷◌}
use jubs.Text.{Text}
use jubs.Value.{Number}
use jubs.Definition.{
  Delivery, ResolvedUnique, first_of_key, last_of_key, one_at_a_time, Recurrence, every_ms,
  pattern_of,
}
use jubs.Envelope.{Envelope}
use jubs.JobId.{compose_child_id}
use jubs.Driver.{EnqueueRequest, FlowNode, node, FlowChildren, childless, child, ScheduleUpsert}

-- `DeduplicationOptions` of BullMQ; an option that is not given is false.
pub record DeduplicationOptions : Type 0 where
  pub id : Text
  pub ttl : Option ℕ
  pub extend : Bool
  pub replace : Bool
  pub keep_last_if_active : Bool

-- `toDeduplication`
unfoldable pub to_deduplication : ResolvedUnique → DeduplicationOptions
to_deduplication (one_at_a_time key) = record {
  id = key;
  ttl = none;
  extend = false;
  replace = false;
  keep_last_if_active = true;
}
to_deduplication (last_of_key key ttl_ms) = record {
  id = key;
  ttl = some ttl_ms;
  extend = true;
  replace = true;
  keep_last_if_active = false;
}
to_deduplication (first_of_key key ttl_ms) = record {
  id = key;
  ttl = ttl_ms;
  extend = false;
  replace = false;
  keep_last_if_active = false;
}

-- `JobSchedulerTemplateOptions` of BullMQ, with a backoff that is exponential
pub record TemplateOptions : Type 0 where
  pub attempts : ℕ
  pub backoff_delay : ℕ
  pub priority : ℕ
  pub remove_on_complete_age : ℕ
  pub remove_on_fail_count : ℕ

-- `Math.round(ms / 1_000)`
abbrev pub round_to_seconds : ℕ → ℕ
round_to_seconds ms = (ms + 500) / 1000

-- `toTemplateOptions`
unfoldable pub to_template_options : Delivery → TemplateOptions
to_template_options delivery = record {
  attempts = delivery.attempts;
  backoff_delay = delivery.backoff.delay_ms;
  priority = delivery.priority;
  remove_on_complete_age = round_to_seconds delivery.keep_completed_for_ms;
  remove_on_fail_count = delivery.keep_failed_count;
}

pub data RepeatOptions : Type 0 where
  repeat_every : Number → RepeatOptions
  repeat_by : Text → Option Text → RepeatOptions

abbrev in_zone : Text → Option Text → RepeatOptions
in_zone pattern none = repeat_by pattern none
in_zone pattern (some []) = repeat_by pattern none
in_zone pattern (some (c ∷ zone)) = repeat_by pattern (some (c ∷ zone))

abbrev repeat_options : Recurrence → Option Text → RepeatOptions
repeat_options (every_ms n) timezone = repeat_every n
repeat_options (pattern_of pattern) timezone = in_zone pattern timezone

-- `toRepeatOptions`
unfoldable pub to_repeat_options : ScheduleUpsert → RepeatOptions
to_repeat_options schedule = repeat_options schedule.recurrence schedule.timezone

-- `JobsOptions` of BullMQ
pub record JobsOptions : Type 0 where
  pub template : TemplateOptions
  pub deduplication : Option DeduplicationOptions
  pub delay : Option ℕ
  pub job_id : Option Text
  pub ignore_dependency_on_failure : Bool

abbrev pub deduplication_for : Option ResolvedUnique → Option DeduplicationOptions
deduplication_for none = none
deduplication_for (some unique) = some (to_deduplication unique)

-- `toJobsOptions`
unfoldable pub to_jobs_options : Delivery → JobsOptions
to_jobs_options delivery = record {
  template = to_template_options delivery;
  deduplication = deduplication_for delivery.unique;
  delay = delivery.delay_ms;
  job_id = none;
  ignore_dependency_on_failure = false;
}

-- `toEnqueueOptions`
unfoldable pub to_enqueue_options : EnqueueRequest → JobsOptions
to_enqueue_options request = record (to_jobs_options request.delivery) { job_id = request.job_id }

-- `FlowJobNode` of BullMQ
mutual
  pub data FlowJobNode : Type 0 where
    flow_job : (name queue : Text) → Envelope → JobsOptions → FlowJobs → FlowJobNode

  pub data FlowJobs : Type 0 where
    no_jobs : FlowJobs
    and_job : FlowJobNode → FlowJobs → FlowJobs

-- The options of a job that another one waits on.
abbrev pub dependent : Text → FlowJobNode → FlowJobNode
dependent id (flow_job name queue envelope opts children) =
    flow_job name queue envelope
      (record opts { job_id = some id; ignore_dependency_on_failure = true }) children

module _ (uuid : ℕ → Text) where
  -- How many ids were minted comes back beside the job.
  unfoldable mutual
    -- `toFlowJob`
    pub to_flow_job : FlowNode → ℕ → FlowJobNode × ℕ
    to_flow_job (node request children) minted =
        let (jobs, minted') = to_flow_jobs children minted in
        (
          flow_job request.envelope.name request.queue request.envelope
              (to_jobs_options request.delivery) jobs,
          minted',
        )

    -- `toDependentFlowJob` of each child
    pub to_flow_jobs : FlowChildren → ℕ → FlowJobs × ℕ
    to_flow_jobs childless minted = (no_jobs, minted)
    to_flow_jobs (child slot one rest) minted =
        let (job, minted') = to_flow_job one minted in
        let (jobs, minted'') = to_flow_jobs rest (suc minted') in
        (and_job (dependent (compose_child_id (uuid minted') slot) job) jobs, minted'')
