-- ===== src/Examples/Stores.antt =====
-- Redis as a map: its keys, its marks and what it keeps of a flow.
use jubs.Common.{
  ◌≡◌, ◌++◌, if◌then◌else◌, refl, ◌∙◌, false, Option, none, some, [], ◌∷◌, arith, map, any,
}
use jubs.Text.{Text, codes, ◌==◌, includes, starts_with}
use jubs.Text.Laws.{==_refl}
use jubs.Value.{Value, null}
use jubs.Result.{Result, ok}
use jubs.Assoc.{Assoc, lookup, insert, remove, lookup-insert, lookup-remove}
use jubs.Idempotency.{KeptResult}
use jubs.Idempotency.Contract.{
  KeyState, held_by, acquire_answer, after_acquire, after_finish, after_release, forget_answer,
  after_forget,
}
use jubs.JobId.{compose_child_id}
use jubs.Driver.{RunningDelivery}
use jubs.Redis.{Redis, RedisLaws}
use jubs.Redis.Keys.{RedisState, redis_key, held_by_text, redis_idempotency, running_prefix}
use jubs.Redis.Keys.Laws.{Shows, redis_idempotency-refines}
use jubs.Redis.Cancel.{take_cancelled, cancel_prefix}
use jubs.Text.Decimal.{show}
use jubs.Redis.Cancel.Laws.{Takes, take_cancelled-Takes}
use jubs.Redis.Flow.{read_flow_state}
use jubs.Redis.Flow.Laws.{Settled, flat, result_for, failure_for, read_flow_state-flat}
use jubs.Examples.Samples.{mail_queue, uuid}

-- Redis as a map.
abbrev pub plain : Redis (Assoc Text)
plain = record {
  get = lookup;
  set_for = λ key value ttl s. insert key value s;
  expire_in = λ key ttl s. s;
  delete = remove;
}

pub plain-laws : RedisLaws plain
plain-laws = record {
  get-set_for = λ key value ttl s lasts. lookup-insert key key value s ∙ rw (==_refl key) refl;
  get-expire_in = λ key asked ttl s lasts. refl;
  get-delete = λ key s. lookup-remove key key s ∙ rw (==_refl key) refl;
  get-delete_other = λ gone asked s other. lookup-remove gone asked s ∙ rw other refl;
}

abbrev kept_text : KeptResult → Text
kept_text kept = codes "{}"

abbrev no_result : Text → Result KeptResult
no_result t = ok none

abbrev dropped : KeptResult → KeptResult
dropped kept = none

abbrev pub nothing_kept : RedisState (Assoc Text)
nothing_kept = record { stored = []; minted = 0 }

no_token : (kept : KeptResult) → starts_with (kept_text kept) running_prefix ≡ false
unfolding starts_with
no_token kept = refl

abbrev KeyShows : RedisState (Assoc Text) → KeyState → Type 0
KeyShows s k =
    Shows plain plain-laws uuid kept_text no_result dropped (λ kept. refl) no_token (codes "k") s k

-- A key that a token holds.
abbrev one_held : RedisState (Assoc Text)
one_held = record { stored = (redis_key (codes "k"), held_by_text (codes "mine")) ∷ []; minted = 0 }

redis_idempotency-refines_example :
    let store = redis_idempotency plain uuid kept_text no_result in
    let (lease, acquired) = store.acquire (codes "k") 5 one_held in
    let (answer, forgotten) = store.forget (codes "k") one_held in
    let k = held_by (codes "mine") in
    ((lease ≡ ok (acquire_answer (codes "token") k))
      × KeyShows acquired (after_acquire (codes "token") k))
    × KeyShows (store.renew (codes "k") (codes "mine") 5 one_held).1 k
    × KeyShows
        (store.finish (codes "k") (codes "mine") none 5 one_held).1
        (after_finish (codes "mine") none k)
    × KeyShows
        (store.release (codes "k") (codes "mine") one_held).1
        (after_release (codes "mine") k)
    × (answer ≡ ok (forget_answer k))
    × KeyShows forgotten (after_forget k)
unfolding lookup ◌==◌
redis_idempotency-refines_example =
    redis_idempotency-refines plain plain-laws uuid kept_text no_result dropped (λ kept. refl)
      no_token (codes "k") (codes "mine") none 5 one_held (held_by (codes "mine")) (omega arith)
      refl

abbrev running_now : RunningDelivery
running_now = record { id = codes "1"; attempts_started = 2 }

abbrev other_now : RunningDelivery
other_now = record { id = codes "2"; attempts_started = 1 }

-- A mark for the second of two deliveries, and one for an earlier attempt of the first.
abbrev two_marks : Assoc Text
two_marks =
    (cancel_prefix mail_queue ++ codes "1", show 1)
    ∷ (cancel_prefix mail_queue ++ codes "2", show 1)
    ∷ []

take_cancelled-Takes_example :
    let (taken, s') = take_cancelled plain mail_queue (running_now ∷ other_now ∷ []) two_marks in
    Takes plain mail_queue (running_now ∷ other_now ∷ []) two_marks taken s'
    × (lookup (cancel_prefix mail_queue ++ codes "2") s' ≡ (
        if any
          (λ d. (cancel_prefix mail_queue ++ d.id) == (cancel_prefix mail_queue ++ codes "2"))
          taken
        then none
        else lookup (cancel_prefix mail_queue ++ codes "2") two_marks))
take_cancelled-Takes_example =
    take_cancelled-Takes plain plain-laws mail_queue (cancel_prefix mail_queue ++ codes "2")
      (running_now ∷ other_now ∷ []) two_marks

-- A child that settled.
abbrev one_child : Settled
one_child = record {
  queue = mail_queue;
  slot = codes "mail";
  uuid = codes "u";
  text = codes "null";
}

abbrev parse_null : Text → Option Value
parse_null t = some null

read_flow_state-flat_example :
    read_flow_state parse_null (record {
      processed = flat (codes "bull") (one_child ∷ []);
      failed = flat (codes "bull") [];
      pending = 1;
    })
    ≡ record {
      results = map (result_for parse_null (codes "bull")) (one_child ∷ []);
      failures = map (failure_for parse_null (codes "bull")) [];
      pending = 1;
    }
unfolding includes compose_child_id
read_flow_state-flat_example =
    read_flow_state-flat parse_null (codes "bull") (one_child ∷ []) [] 1
      ((refl, refl, (λ e. cc), refl), tt) tt
