-- ===== src/Redis/Connection.antt =====
-- src/RedisDriver.ts: the check of a connection, and what a worker is opened with. A connection is a Redis
-- client, a cluster, or their options; the drivers take the verdict of the check as a truth value.
use jubs.Common.{
  ◌≡◌, refl, ℕ, eqb, Bool, true, false, not, Option, none, some, if◌then◌else◌, ◌or_else◌,
}
use jubs.Fault.{not_blocking}
use jubs.Result.{Result, ok, refuse}
use jubs.Runtime.Consumers.{QueueLimiter, ConsumeRequest}

-- The one option of a connection that is read; `null` is none.
pub record RetryOptions : Type 0 where
  pub max_retries_per_request : Option ℕ

pub record ConnectionOptions : Type 0 where
  pub own : RetryOptions
  pub redis_options : Option RetryOptions

pub record ConnectionShape : Type 0 where
  pub is_cluster : Bool
  pub own : RetryOptions
  pub redis_options : Option RetryOptions
  pub options : Option ConnectionOptions

abbrev first_of {ℓ} : {A : Type ℓ} → Option A → Option A → Option A
first_of none second = second
first_of (some a) second = some a

abbrev cluster_options : Option ConnectionOptions → Option RetryOptions
cluster_options none = none
cluster_options (some options) = options.redis_options

abbrev client_options : Option ConnectionOptions → Option RetryOptions
client_options none = none
client_options (some options) = some options.own

-- `blockingOptions`
abbrev pub blocking_options : ConnectionShape → Option RetryOptions
blocking_options connection =
    if connection.is_cluster
    then first_of (cluster_options connection.options) connection.redis_options
    else first_of (client_options connection.options)
        (some (connection.redis_options or_else connection.own))

-- A number of retries is true in the source but for 0.
abbrev pub retries : Option RetryOptions → Bool
retries none = false
retries (some options) = elim options.max_retries_per_request [
  | none ↦ false
  | some n ↦ not (eqb n 0)
]

-- `assertBlockingConnection`
unfoldable pub assert_blocking_connection : ConnectionShape → Result (Unit {0})
assert_blocking_connection connection =
    if not (retries (blocking_options connection)) then ok tt else refuse not_blocking

-- `RateLimiterOptions` and `WorkerOptions` of BullMQ.
pub record RateLimiter : Type 0 where
  pub max : ℕ
  pub duration : ℕ

pub record WorkerOptions : Type 0 where
  pub connection : ConnectionShape
  pub concurrency : ℕ
  pub limiter : Option RateLimiter

abbrev rate_limiter : QueueLimiter → RateLimiter
rate_limiter limiter = record { max = limiter.max; duration = limiter.duration_ms }

-- `toWorkerOptions`
abbrev pub to_worker_options : {S : Type 0} → ConsumeRequest S → ConnectionShape → WorkerOptions
to_worker_options request connection = record {
  connection = connection;
  concurrency = request.concurrency;
  limiter = elim request.limiter [ none ↦ none | some limiter ↦ some (rate_limiter limiter) ];
}

-- A cluster is judged by the options of its nodes only: without them it is accepted, whatever else it
-- says.
cluster-accepted :
    (connection : ConnectionShape)
    → connection.is_cluster ≡ true
    → first_of (cluster_options connection.options) connection.redis_options ≡ none
    → assert_blocking_connection connection ≡ ok tt
unfolding assert_blocking_connection
cluster-accepted connection cluster unsaid = rw (cluster, unsaid) refl
