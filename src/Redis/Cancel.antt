-- ===== src/Redis/Cancel.antt =====
-- src/RedisDriver.ts: the marks of cancelled deliveries over Redis, and the script that takes them.
pub mod Laws
use jubs.Common.{
  ℕ, zero, suc, ◌+◌, ◌/◌, Bool, true, false, Option, none, some, List, [], ◌∷◌, ◌++◌, if◌then◌else◌,
}
use jubs.Text.{Text, codes, ◌==◌}
use jubs.Text.Decimal.{show}
use jubs.Driver.{RunningDelivery}
use jubs.Redis.{Redis}

-- `CANCEL_MARK_TTL_MS` of src/Cancellation.ts
abbrev pub cancel_mark_ttl_ms : ℕ
cancel_mark_ttl_ms = 30000

-- `cancelPrefix`
unfoldable pub cancel_prefix : Text → Text
cancel_prefix queue = codes "jubs:cancel:{" ++ queue ++ codes "}:"

abbrev pub add_if : {A : Type 0} → Bool → A → List A → List A
add_if true a rest = a ∷ rest
add_if false a rest = rest

abbrev pub is_mark : Option Text → Text → Bool
is_mark none attempts = false
is_mark (some mark) attempts = mark == attempts

-- The arguments of the script behind its key: an id and the attempt it is at, one after the other.
abbrev pub arguments : List RunningDelivery → List Text
arguments [] = []
arguments (d ∷ ds) = d.id ∷ show d.attempts_started ∷ arguments ds

-- `running[index]`, in a list that is empty where there is none
abbrev pub at_index : ℕ → List RunningDelivery → List RunningDelivery
at_index n [] = []
at_index zero (d ∷ ds) = d ∷ []
at_index (suc n) (d ∷ ds) = at_index n ds

-- The deliveries at positions that count from 1.
abbrev pub deliveries_at : List ℕ → List RunningDelivery → List RunningDelivery
deliveries_at [] running = []
deliveries_at (zero ∷ positions) running = deliveries_at positions running
deliveries_at (suc index ∷ positions) running =
    at_index index running ++ deliveries_at positions running

module _ {R : Type 0} (redis : Redis R) where
  -- `requestCancel`
  unfoldable pub request_cancel : Text → RunningDelivery → R → R
  request_cancel queue delivery s =
      redis.set_for (cancel_prefix queue ++ delivery.id) (show delivery.attempts_started)
        cancel_mark_ttl_ms s

  abbrev pub unmark : Bool → Text → R → R
  unmark true key s = redis.delete key s
  unmark false key s = s

  -- `TAKE_CANCELLED_LUA`, from `ARGV[index]` on: the arguments from there are what is left of the
  -- list, and the loop goes on in steps of two. An id with nothing behind it equals no mark.
  unfoldable pub take_script : (prefix : Text) → List Text → (index : ℕ) → R → List ℕ × R
  take_script prefix [] index s = ([], s)
  take_script prefix (id ∷ []) index s = ([], s)
  take_script prefix (id ∷ attempts ∷ rest) index s =
      let key = prefix ++ id in
      let taken = is_mark (redis.get key s) attempts in
      let (positions, s') = take_script prefix rest (index + 2) (unmark taken key s) in
      (add_if taken ((index + 1) / 2) positions, s')

  -- `takeCancelled`
  unfoldable pub take_cancelled : Text → List RunningDelivery → R → List RunningDelivery × R
  take_cancelled queue [] s = ([], s)
  take_cancelled queue (d ∷ ds) s =
      let (positions, s') = take_script (cancel_prefix queue) (arguments (d ∷ ds)) 1 s in
      (deliveries_at positions (d ∷ ds), s')
