-- ===== src/Redis/Schedules/Kept.antt =====
-- The schedulers of a queue after a reconciliation.
use jubs.Common.{
  ◌≡◌, refl, ap, sym, ◌∙◌, Bool, true, ◌&&◌, ◌||◌, not, List, [], ◌∷◌, any, arith, Bool-cases, inl,
  inr,
}
use jubs.Text.{Text, ◌==◌, starts_with}
use jubs.Text.Laws.{==_sound}
use jubs.Value.{Value}
use jubs.Result.{ok}
use jubs.Envelope.{envelope_value}
use jubs.Driver.{ScheduleUpsert}
use jubs.Redis.Bull.{Bull}
use jubs.Redis.Options.{RepeatOptions, TemplateOptions, to_repeat_options, to_template_options}
use jubs.Redis.Schedules.{
  scheduler_prefix, scheduler_id, is_stale, stale, remove_each, upsert_each, reconcile_schedules,
}

-- BullMQ keeps the schedulers of a queue by their keys, and its calls return.
pub record SchedulerLaws {S : Type 0} (bull : Bull S) (keys : Text → S → List Text) : Type 0 where
  pub schedulers_lem : (queue : Text) (s : S) → bull.schedulers queue s ≡ (ok (keys queue s), s)
  pub remove_lem : (queue key : Text) (s : S) → (bull.remove_scheduler queue key s).0 ≡ ok tt
  pub remove_keys :
      (queue key asked : Text) (s : S)
      → any (λ k. k == asked) (keys queue (bull.remove_scheduler queue key s).1)
        ≡ (any (λ k. k == asked) (keys queue s) && not (key == asked))
  pub upsert_lem :
      (queue key : Text) (repeat : RepeatOptions) (name : Text) (v : Value)
      (options : TemplateOptions) (s : S)
      → (bull.upsert_scheduler queue key repeat name v options s).0 ≡ ok tt
  pub upsert_keys :
      (queue key : Text) (repeat : RepeatOptions) (name : Text) (v : Value)
      (options : TemplateOptions) (asked : Text) (s : S)
      → any
          (λ k. k == asked)
          (keys queue (bull.upsert_scheduler queue key repeat name v options s).1)
        ≡ ((key == asked) || any (λ k. k == asked) (keys queue s))

module _ {S : Type 0} (bull : Bull S) (keys : Text → S → List Text)
    (laws : SchedulerLaws bull keys) where
  abbrev pub kept_in : Text → Text → S → Bool
  kept_in queue asked s = any (λ k. k == asked) (keys queue s)

  -- A schedule is declared under the key.
  abbrev pub is_declared : List ScheduleUpsert → Text → Bool
  is_declared declared key = any (λ schedule. scheduler_id schedule.envelope.name == key) declared

  remove_each-keys :
      (queue asked : Text) (gone : List Text) (s : S)
      → kept_in queue asked (remove_each bull queue gone s).1
        ≡ (kept_in queue asked s && not (any (λ k. k == asked) gone))
  remove_each-keys queue asked [] s = ground arith
  remove_each-keys queue asked (key ∷ gone) s =
      let rest = remove_each-keys queue asked gone (bull.remove_scheduler queue key s).1 in
      let first = laws.remove_keys queue key asked s in ground (arith, rest, first)

  remove_each-ok :
      (queue : Text) (gone : List Text) (s : S) → (remove_each bull queue gone s).0 ≡ ok tt
  remove_each-ok queue [] s = refl
  remove_each-ok queue (key ∷ gone) s =
      rw (laws.remove_lem queue key s)
        (remove_each-ok queue gone (bull.remove_scheduler queue key s).1)

  upsert_each-keys :
      (queue asked : Text) (declared : List ScheduleUpsert) (s : S)
      → ((upsert_each bull queue declared s).0 ≡ ok tt)
        × (kept_in queue asked (upsert_each bull queue declared s).1
            ≡ (is_declared declared asked || kept_in queue asked s))
  upsert_each-keys queue asked [] s = (refl, refl)
  upsert_each-keys queue asked (schedule ∷ declared) s =
      let name = schedule.envelope.name in
      let up =
        bull.upsert_scheduler queue (scheduler_id name) (to_repeat_options schedule) name
          (envelope_value schedule.envelope) (to_template_options schedule.delivery) s in
      let (returns, rest) = upsert_each-keys queue asked declared up.1 in
      let first =
        laws.upsert_keys queue (scheduler_id name) (to_repeat_options schedule) name
          (envelope_value schedule.envelope) (to_template_options schedule.delivery) asked s in
      rw
        (laws.upsert_lem queue (scheduler_id name) (to_repeat_options schedule) name
          (envelope_value schedule.envelope) (to_template_options schedule.delivery) s)
        (returns, ground (arith, rest, first))

  any-stale :
      (asked : Text) (declared : List ScheduleUpsert) (existing : List Text)
      → any (λ k. k == asked) (stale declared existing) ≡ (
          any (λ k. k == asked) existing
          && starts_with asked scheduler_prefix
          && not (is_declared declared asked))
  any-stale asked declared [] = refl
  any-stale asked declared (key ∷ existing) =
      let rest = any-stale asked declared existing in
      elim (Bool-cases (key == asked)) [
        | inl same ↦
            let same_key = ==_sound key asked same in
            let same_test = ap (is_stale declared) same_key in
            elim (Bool-cases (is_stale declared key)) [
              | inl goes ↦ rw (goes, same) (sym goes ∙ same_test)
              | inr stays ↦
                  let stays_so = sym same_test ∙ stays in
                  rw (stays, same) (ground (arith, rest, stays_so))
            ]
        | inr other ↦ elim (Bool-cases (is_stale declared key)) [
          | inl goes ↦ rw (goes, other) rest
          | inr stays ↦ rw (stays, other) rest
        ]
      ]

  -- Where the calls of BullMQ return, a reconciliation on a blocking connection returns, and the
  -- queue then keeps a scheduler under a key if a schedule is declared under it, or if it was kept
  -- before and the key does not have the prefix of this library.
  pub reconcile_schedules-keys :
      (queue asked : Text) (declared : List ScheduleUpsert) (s : S)
      → let (r, s') = reconcile_schedules bull true queue declared s in
        (r ≡ ok tt)
        × (kept_in queue asked s' ≡ (
            is_declared declared asked
            || (kept_in queue asked s && not (starts_with asked scheduler_prefix))))
  unfolding reconcile_schedules
  reconcile_schedules-keys queue asked declared s =
      let gone = stale declared (keys queue s) in
      let removed = remove_each-keys queue asked gone s in
      let of_stale = any-stale asked declared (keys queue s) in
      let (returns, kept) =
        upsert_each-keys queue asked declared (remove_each bull queue gone s).1 in
      rw (laws.schedulers_lem queue s, remove_each-ok queue gone s)
        (returns, ground (arith, kept, removed, of_stale))
