-- ===== src/Dead/Names.antt =====
-- The names of dead queues (src/Dead.ts) and the ids that name a dead or a live job
-- (src/Client.ts).
pub mod Laws
use jubs.Common.{◌-◌, ◌||◌, not, Option, none, some, ◌++◌, eqb, length, take, if◌then◌else◌}
use jubs.Text.{Text, codes, ends_with}
use jubs.Fault.{not_a_dead_job_id}
use jubs.Result.{Result, ok, refuse, ◌>>=◌}
use jubs.JobId.{JobAddress, read_job_id}

abbrev pub dead_suffix : Text
dead_suffix = codes ".dead"

-- `deadQueueName`
unfoldable pub dead_queue_name : Text → Text
dead_queue_name queue = queue ++ dead_suffix

-- `liveQueueName`
unfoldable pub live_queue_name : Text → Option Text
live_queue_name dead =
    if not (ends_with dead dead_suffix) || eqb (length dead) (length dead_suffix)
    then none
    else some (take (length dead - length dead_suffix) dead)

abbrev of_live : Text → JobAddress → Option Text → Result JobAddress
of_live id address none = refuse (not_a_dead_job_id id)
of_live id address (some live) = ok (record address { queue = live })

-- `readDeadJobId`
unfoldable pub read_dead_job_id : Text → Result JobAddress
read_dead_job_id id = do
  address ← read_job_id id
  of_live id address (live_queue_name address.queue)

abbrev unless_dead : JobAddress → Option Text → Option JobAddress
unless_dead address none = some address
unless_dead address (some live) = none

-- `readLiveJobId`
unfoldable pub read_live_job_id : Text → Result (Option JobAddress)
read_live_job_id id = do
  address ← read_job_id id
  ok (unless_dead address (live_queue_name address.queue))
