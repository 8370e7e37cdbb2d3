-- ===== src/Client/Ids.antt =====
-- The ids that the client gives out and reads.
use jubs.Common.{◌≡◌, ◌≢◌, refl, false, none, []}
use jubs.Text.{Text, includes}
use jubs.Result.{ok}
use jubs.Effects.{◌>>=◌, pure}
use jubs.JobId.{colon, compose_job_id}
use jubs.Dead.Names.{dead_queue_name, live_queue_name}
use jubs.Dead.Names.Laws.{dead_id_is_dead, live_id_is_live}
use jubs.Driver.{no_such_job, unknown_job}
use jubs.Atomic.{InScope, outside}
use jubs.Handlers.{JobsConfig}
use jubs.Client.{get, retry, cancel, renamed}
use jubs.Client.Dead.{discard, discarded}

module _ {S : Type 0} (config : JobsConfig S) (queue stored_id : Text) (named : queue ≢ [])
    (plain : includes colon queue ≡ false) (stored : stored_id ≢ []) where
  -- An id that `dead.list` composes names no live job over any driver: `get` finds nothing, and `retry`
  -- and `cancel` answer that the job is unknown, without a call of the driver. `dead.discard` asks the
  -- driver for the removal of the record under the queue and the stored id that it was composed of. The
  -- queue has a name without a colon, and the stored id is not empty.
  pub dead_id-client :
      (s : InScope S Text)
      → let id = compose_job_id (dead_queue_name queue) stored_id in
        (get config id s ≡ (ok none, s))
        × (retry config id s ≡ (ok no_such_job, s))
        × (cancel config id s ≡ (ok unknown_job, s))
        × (discard config id s
            ≡ outside
                (config.driver.remove_dead queue stored_id
                  >>= discarded config (compose_job_id (dead_queue_name queue) stored_id))
                s)
  unfolding get retry cancel discard
  dead_id-client s =
      let (dead, not_live) = dead_id_is_dead queue stored_id named plain stored in
      (rw not_live refl, rw not_live refl, rw not_live refl, rw dead refl)

  -- An id of a job on a queue that is no dead queue is read as that queue and the stored id.
  pub live_id-client :
      (s : InScope S Text)
      → live_queue_name queue ≡ none
      → let id = compose_job_id queue stored_id in
        (get config id s
          ≡ outside (config.driver.get queue stored_id >>= λ found. pure (renamed queue found)) s)
        × (retry config id s ≡ outside (config.driver.retry queue stored_id) s)
        × (cancel config id s ≡ outside (config.driver.cancel queue stored_id) s)
  unfolding get retry cancel
  live_id-client s live =
      let there = live_id_is_live queue stored_id named plain stored live in
      (rw there refl, rw there refl, rw there refl)
