-- ===== src/Runtime/Start/Accepted.antt =====
-- What a runtime that starts may rely on.
use jubs.Common.{
  ◌≡◌, refl, sym, inl, inr, Bool, true, false, not, ◌&&◌, Option, none, some, List, [], ◌∷◌, arith,
  find, is_some, map, All, All-weaken, ◌or_else◌, Option-cases,
}
use jubs.Text.{Text, ◌==◌}
use jubs.Text.Laws.{==_iff}
use jubs.Fault.{Thrown, two_handlers}
use jubs.Result.{ok, refuse, >>=-eq-ok}
use jubs.Assoc.{Assoc, lookup, insert, lookup-insert}
use jubs.Definition.{JobDefinition, settings}
use jubs.Dead.Names.{dead_queue_name}
use jubs.Runtime.{JobHandler, JobsConfig}
use jubs.Runtime.Start.{
  among, unique_names, refuse_found, add_handlers, name_of, handlers_by_name,
  assert_every_definition_runs, assert_every_tuned_queue_started,
  assert_no_queue_consumes_a_dead_queue, started_queues, assert_startable,
}

abbrev pub first_of {ℓ} : {A : Type ℓ} → Option A → Option A → Option A
first_of (some a) o = some a
first_of none o = o

-- A check for the elements that fail a test passes when all are free of it.
refuse_found_sound {ℓ} :
    {A : Type ℓ} (thrown : A → Thrown) (p : A → Bool) (xs : List A)
    → refuse_found thrown (find p xs) ≡ ok tt
    → All (λ a. p a ≡ false) xs
refuse_found_sound thrown p [] h = tt
refuse_found_sound thrown p (x ∷ xs) h = ground (arith, refuse_found_sound thrown p xs)

among-unique_names :
    (q : Text) (seen qs : List Text)
    → among q (unique_names seen qs) ≡ (among q qs && not (among q seen))
among-unique_names q seen [] = refl
among-unique_names q seen (p ∷ qs) = ground (arith, among-unique_names q (p ∷ seen) qs, ==_iff p q)

first_of-none {ℓ} : {A : Type ℓ} (o : Option A) → first_of o none ≡ o
first_of-none none = refl
first_of-none (some a) = refl

module _ {S : Type 0} where
  lookup-add_handlers :
      (hs : List (JobHandler S)) (by_name m : Assoc (JobHandler S)) (name : Text)
      → add_handlers hs by_name ≡ ok m
      → lookup name m ≡ first_of (lookup name by_name) (find (λ h. name_of h == name) hs)
  lookup-add_handlers [] by_name m name h =
      let same : by_name ≡ m = cc in rw (← same) (sym (first_of-none (lookup name by_name)))
  lookup-add_handlers (x ∷ hs) by_name m name h = elim (Option-cases (lookup (name_of x) by_name)) [
    | inl free ↦
        let added : add_handlers hs (insert (name_of x) x by_name) ≡ ok m = rw free at h in
        ground (
          arith,
          lookup-add_handlers hs (insert (name_of x) x by_name) m name added,
          lookup-insert (name_of x) name x by_name,
          ==_iff (name_of x) name,
        )
    | inr (y, taken) ↦ let never : refuse (two_handlers (name_of x)) ≡ ok m = rw taken at h in cc
  ]

  -- A table of handlers that is accepted answers for a name as the list of handlers does, so no
  -- handler hides another one.
  pub lookup-handlers_by_name :
      (handlers : List (JobHandler S)) (by_name : Assoc (JobHandler S)) (name : Text)
      → handlers_by_name handlers ≡ ok by_name
      → lookup name by_name ≡ find (λ h. name_of h == name) handlers
  unfolding handlers_by_name lookup
  lookup-handlers_by_name handlers by_name name h = lookup-add_handlers handlers [] by_name name h

  abbrev pub is_handled : List (JobHandler S) → JobDefinition → Bool
  is_handled handlers d = is_some (find (λ h. name_of h == (settings d).name) handlers)

  among-started_queues :
      (config : JobsConfig S) (handlers : List (JobHandler S)) (q : Text)
      → among q (started_queues config handlers)
        ≡ among q (map (λ h. (settings h.definition).queue) handlers)
  among-started_queues config handlers q =
      ground (arith, among-unique_names q [] (map (λ h. (settings h.definition).queue) handlers))

  -- If the checks of a start pass, every definition on a started queue has a handler, every queue
  -- that is tuned is started, and no started queue is the dead queue of a configured one. The
  -- started queues are those of the handlers.
  pub assert_startable_sound :
      (config : JobsConfig S) (handlers : List (JobHandler S)) (tuned : List Text)
      → assert_startable config handlers tuned ≡ ok tt
      → let queues = map (λ h. (settings h.definition).queue) handlers in
        All
          (λ d. (among (settings d).queue queues && not (is_handled handlers d)) ≡ false)
          (config.definitions or_else [])
        × All (λ q. among q queues ≡ true) tuned
        × All (λ q. among (dead_queue_name q) queues ≡ false) config.dead_queues
  unfolding assert_startable assert_every_definition_runs assert_every_tuned_queue_started
      assert_no_queue_consumes_a_dead_queue
  assert_startable_sound config handlers tuned h =
      let queues = started_queues config handlers in
      let definitions = config.definitions or_else [] in
      let (by_name, table, rest) = >>=-eq-ok (handlers_by_name handlers) _ h in
      let (_, defined, rest') =
        >>=-eq-ok (assert_every_definition_runs definitions by_name queues) _ rest in
      let (_, tunes, guards) = >>=-eq-ok (assert_every_tuned_queue_started tuned queues) _ rest' in
      (
        All-weaken
            {Q = λ d.
              (among (settings d).queue (map (λ h. (settings h.definition).queue) handlers)
                && not (is_handled handlers d))
              ≡ false}
            (λ d free.
              rw
                (
                  ← among-started_queues config handlers (settings d).queue,
                  ← lookup-handlers_by_name handlers by_name (settings d).name table,
                )
                free)
            definitions (refuse_found_sound _ _ definitions defined),
        All-weaken (λ q free. ground (arith, among-started_queues config handlers q)) tuned
            (refuse_found_sound _ _ tuned tunes),
        All-weaken
            (λ q free. ground (arith, among-started_queues config handlers (dead_queue_name q)))
            config.dead_queues (refuse_found_sound _ _ config.dead_queues guards),
      )
