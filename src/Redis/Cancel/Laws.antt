-- ===== src/Redis/Cancel/Laws.antt =====
-- The positions that the script answers are read back as the deliveries whose marks it took.
use jubs.Common.{
  suc, ◌+◌, ◌*◌, ◌/◌, ◌≡◌, ◌≢◌, ◌↔◌, refl, ap, true, Option, none, some, List, [], ◌∷◌, ◌++◌, arith,
  any, length, length-append, append_assoc, Bool-cases, inl, inr, if◌then◌else◌,
}
use jubs.Text.{Text, ◌==◌}
use jubs.Text.Laws.{==_refl, ==_sound}
use jubs.Text.Decimal.{show}
use jubs.Driver.{RunningDelivery}
use jubs.Redis.{Redis, RedisLaws}
use jubs.Redis.Cancel.{
  cancel_mark_ttl_ms, cancel_prefix, request_cancel, is_mark, take_script, arguments, at_index,
  deliveries_at, take_cancelled,
}

module _ {R : Type 0} (redis : Redis R) where
  -- The deliveries of which a mark names the attempt are taken, and their marks go; the others are passed.
  pub data Takes (queue : Text) : List RunningDelivery → R → List RunningDelivery → R → Type 0 where
    nothing_left : (s : R) → Takes queue [] s [] s
    marked :
        (d : RunningDelivery) (ds taken : List RunningDelivery) (s s' : R)
        → redis.get (cancel_prefix queue ++ d.id) s ≡ some (show d.attempts_started)
        → Takes queue ds (redis.delete (cancel_prefix queue ++ d.id) s) taken s'
        → Takes queue (d ∷ ds) s (d ∷ taken) s'
    unmarked :
        (d : RunningDelivery) (ds taken : List RunningDelivery) (s s' : R)
        → redis.get (cancel_prefix queue ++ d.id) s ≢ some (show d.attempts_started)
        → Takes queue ds s taken s'
        → Takes queue (d ∷ ds) s taken s'

  is_mark_iff :
      (held : Option Text) (attempts : Text)
      → (is_mark held attempts ≡ true) ↔ (held ≡ some attempts)
  is_mark_iff none attempts = (λ h. cc, λ h. cc)
  is_mark_iff (some mark) attempts = (
    λ h. ap some (==_sound mark attempts h),
    λ h. let same : mark ≡ attempts = cc in rw same (==_refl attempts),
  )

  at_index-length :
      (before : List RunningDelivery) (d : RunningDelivery) (ds : List RunningDelivery)
      → at_index (length before) (before ++ d ∷ ds) ≡ d ∷ []
  at_index-length [] d ds = refl
  at_index-length (x ∷ before) d ds = at_index-length before d ds

  -- The rest of the deliveries, behind one more that is passed.
  take_script-Takes :
      (queue : Text) (before ds : List RunningDelivery) (s : R)
      → let (positions, s') =
          take_script redis (cancel_prefix queue) (arguments ds) (2 * length before + 1) s in
        Takes queue ds s (deliveries_at positions (before ++ ds)) s'
  unfolding take_script
  take_script-Takes queue before [] s = nothing_left s
  take_script-Takes queue before (d ∷ ds) s =
      let key = cancel_prefix queue ++ d.id in
      let position : (2 * length before + 1 + 1) / 2 ≡ suc (length before) = omega arith in
      let next : 2 * length (before ++ d ∷ []) + 1 ≡ 2 * length before + 1 + 2 =
        omega (arith, length-append before (d ∷ [])) in
      let rest = λ (t : R).
        rw (next, append_assoc before (d ∷ []) ds) at
          (take_script-Takes queue (before ++ d ∷ []) ds t) in
      elim (Bool-cases (is_mark (redis.get key s) (show d.attempts_started))) [
        | inl there ↦
            rw (there, position, at_index-length before d ds)
              (marked d ds _ s _ ((is_mark_iff _ _).0 there) (rest (redis.delete key s)))
        | inr other ↦
            rw other
              (unmarked d ds _ s _ (λ there. let is = (is_mark_iff _ _).1 there in cc) (rest s))
      ]

  Takes-get :
      RedisLaws redis
      → (queue asked : Text) {ds taken : List RunningDelivery} {s s' : R}
      → Takes queue ds s taken s'
      → redis.get asked s' ≡ (
          if any (λ d. (cancel_prefix queue ++ d.id) == asked) taken
          then none
          else redis.get asked s)
  Takes-get laws queue asked (nothing_left s) = refl
  Takes-get laws queue asked (unmarked d ds taken s s' no_mark rest) =
      Takes-get laws queue asked rest
  Takes-get laws queue asked (marked d ds taken s s' is_marked rest) =
      let key = cancel_prefix queue ++ d.id in
      let later = Takes-get laws queue asked rest in
      elim (Bool-cases (key == asked)) [
        | inl same ↦
            let gone : redis.get asked (redis.delete key s) ≡ none =
              rw (← ==_sound key asked same) (laws.get-delete key s) in
            ground (arith, later, gone, same)
        | inr other ↦ ground (arith, later, laws.get-delete_other key asked s other, other)
      ]

  -- Of the deliveries that run, the driver takes those, in their order, whose mark names their
  -- attempt when they are looked at, one after the other. Under the key of a delivery that is taken no mark
  -- is left, and under every other key stands what stood there.
  pub take_cancelled-Takes :
      RedisLaws redis
      → (queue asked : Text) (ds : List RunningDelivery) (s : R)
      → let (taken, s') = take_cancelled redis queue ds s in
        Takes queue ds s taken s'
        × (redis.get asked s' ≡ (
            if any (λ d. (cancel_prefix queue ++ d.id) == asked) taken
            then none
            else redis.get asked s))
  unfolding take_cancelled
  take_cancelled-Takes laws queue asked [] s = (nothing_left s, refl)
  take_cancelled-Takes laws queue asked (d ∷ ds) s =
      let takes = take_script-Takes queue [] (d ∷ ds) s in (takes, Takes-get laws queue asked takes)

  -- A mark is handed out to the delivery that it was set for, and only once.
  pub take_cancelled-request_cancel :
      RedisLaws redis
      → (queue : Text) (d : RunningDelivery) (s : R)
      → let (taken, s') = take_cancelled redis queue (d ∷ []) (request_cancel redis queue d s) in
        (taken ≡ d ∷ []) × ((take_cancelled redis queue (d ∷ []) s').0 ≡ [])
  unfolding take_cancelled request_cancel take_script
  take_cancelled-request_cancel laws queue d s =
      let key = cancel_prefix queue ++ d.id in
      let marked =
        laws.get-set_for key (show d.attempts_started) cancel_mark_ttl_ms s (omega arith) in
      rw
        (
          marked,
          ==_refl (show d.attempts_started),
          laws.get-delete key (redis.set_for key (show d.attempts_started) cancel_mark_ttl_ms s),
        )
        (refl, refl)
