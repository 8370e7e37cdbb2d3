-- ===== src/Dead/Names/Laws.antt =====
-- Dead and live names never mix.
use jubs.Common.{
  ◌-◌, ◌≡◌, ◌≢◌, refl, ◌↔◌, false, none, some, [], ◌∷◌, ◌++◌, arith, length, take, length-append,
  take-append_length,
}
use jubs.Text.{Text, includes}
use jubs.Text.Laws.{ends_with-append, ends_with-split, includes-append}
use jubs.Result.{ok}
use jubs.JobId.{colon, compose_job_id}
use jubs.JobId.Laws.{length-pos, read_job_id-compose_job_id}
use jubs.Dead.Names.{
  dead_suffix, dead_queue_name, live_queue_name, read_dead_job_id, read_live_job_id,
}

live_queue_name-dead_queue_name :
    (queue : Text) → queue ≢ [] → live_queue_name (dead_queue_name queue) ≡ some queue
unfolding live_queue_name dead_queue_name
live_queue_name-dead_queue_name queue h =
    let cut : length (queue ++ dead_suffix) - 5 ≡ length queue =
      omega (arith, length-append queue dead_suffix) in
    rw (ends_with-append queue dead_suffix, cut, take-append_length queue dead_suffix)
      (ground (arith, length-append queue dead_suffix, length-pos queue h))

-- A queue name is read as the dead queue of `live` exactly when it is the name that `live`'s dead
-- queue has, and `live` is not empty.
pub live_queue_name-eq-some_iff :
    (dead live : Text)
    → (live_queue_name dead ≡ some live) ↔ ((dead ≡ dead_queue_name live) × (live ≢ []))
unfolding live_queue_name dead_queue_name
live_queue_name-eq-some_iff dead live =
    let n = length dead - 5 in
    (
      λ h.
          ground
            (arith, h, ends_with-split dead dead_suffix, length-append (take n dead) dead_suffix),
      λ (named, some_live). rw named (live_queue_name-dead_queue_name live some_live),
    )

dead_queue_name-ne-nil : (queue : Text) → dead_queue_name queue ≢ []
unfolding dead_queue_name
dead_queue_name-ne-nil [] h = cc
dead_queue_name-ne-nil (x ∷ queue) h = cc

dead_queue_name-no_colon :
    (queue : Text) → includes colon queue ≡ false → includes colon (dead_queue_name queue) ≡ false
unfolding dead_queue_name includes
dead_queue_name-no_colon queue h = includes-append colon queue dead_suffix h refl

-- An id that the listing of a dead queue composes names that dead record, and names no live job.
pub dead_id_is_dead :
    (queue stored_id : Text)
    → queue ≢ []
    → includes colon queue ≡ false
    → stored_id ≢ []
    → (read_dead_job_id (compose_job_id (dead_queue_name queue) stored_id)
        ≡ ok (record { queue = queue; stored_id = stored_id }))
      × (read_live_job_id (compose_job_id (dead_queue_name queue) stored_id) ≡ ok none)
unfolding read_dead_job_id read_live_job_id
dead_id_is_dead queue stored_id some_queue no_colon some_id =
    let address =
      read_job_id-compose_job_id (dead_queue_name queue) stored_id (dead_queue_name-ne-nil queue)
        (dead_queue_name-no_colon queue no_colon) some_id in
    let dead = live_queue_name-dead_queue_name queue some_queue in
    (rw (address, dead), rw (address, dead))

-- An id composed of a queue that is no dead queue names that live job.
pub live_id_is_live :
    (queue stored_id : Text)
    → queue ≢ []
    → includes colon queue ≡ false
    → stored_id ≢ []
    → live_queue_name queue ≡ none
    → read_live_job_id (compose_job_id queue stored_id)
      ≡ ok (some (record { queue = queue; stored_id = stored_id }))
unfolding read_live_job_id
live_id_is_live queue stored_id some_queue no_colon some_id alive =
    rw (read_job_id-compose_job_id queue stored_id some_queue no_colon some_id, alive)
