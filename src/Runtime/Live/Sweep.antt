-- ===== src/Runtime/Live/Sweep.antt =====
-- What a sweep and a close do to the signals of the deliveries that run.
use jubs.Common.{
  ◌≡◌, refl, sym, ◌∙◌, ℕ, eqb, eqb_iff, Bool, true, ◌&&◌, ◌||◌, none, some, Option-cases, List, [],
  ◌∷◌, ◌++◌, keep, any, append-nil, append_assoc, arith, Bool-cases, inl, inr, ◌⊎◌, ◌or_else◌,
}
use jubs.Text.{Text, ◌==◌}
use jubs.Text.Laws.{==_sound, ==_refl}
use jubs.Fault.{Thrown, cancelled, no_cause}
use jubs.Result.{Result, ok, err}
use jubs.Effects.{Exec}
use jubs.Assoc.{Assoc, lookup, insert, lookup-insert}
use jubs.Runtime.Live.{
  LiveDelivery, Signals, abort, LiveState, by_queue_from, live_by_queue, abort_each, sweep_each,
  sweep_cancellations,
}

from-groups :
    (queue : Text) (groups : Assoc (List LiveDelivery)) (ds : List LiveDelivery)
    → lookup queue (by_queue_from groups ds) or_else []
      ≡ (lookup queue groups or_else []) ++ keep (λ d. d.queue == queue) ds
unfolding by_queue_from
from-groups queue groups [] = sym (append-nil _)
from-groups queue groups (d ∷ ds) =
    let group = (lookup d.queue groups or_else []) ++ d ∷ [] in
    let rest = from-groups queue (insert d.queue group groups) ds in
    let set = lookup-insert d.queue queue group groups in
    elim (Bool-cases (d.queue == queue)) [
      | inl same ↦
          rest
          ∙ rw (set, same, ==_sound d.queue queue same)
              (append_assoc (lookup queue groups or_else []) (record d { queue = queue } ∷ [])
                (keep (λ x. x.queue == queue) ds))
      | inr other ↦ rest ∙ rw (set, other) refl
    ]

-- The groups of a sweep are by queue: what it asks of a queue is the deliveries of that queue that are
-- running, in the order in which they began.
pub live_by_queue_lem :
    (queue : Text) (live : List LiveDelivery)
    → lookup queue (live_by_queue live) or_else [] ≡ keep (λ d. d.queue == queue) live
unfolding lookup
live_by_queue_lem queue live = from-groups queue [] live

-- A delivery of this name runs on this controller.
abbrev pub runs_on : ℕ → Text → List LiveDelivery → Bool
runs_on c name ds = any (λ d. eqb d.controller c && d.name == name) ds

abbrev runs_in : ℕ → Text → Assoc (List LiveDelivery) → Bool
runs_in c name groups = any (λ (group : Text × List LiveDelivery). runs_on c name group.1) groups

-- Between the two, a signal is as it was, or it was not aborted before and is now aborted for the reason
-- of a delivery that runs on its controller.
abbrev pub Aborts : (Text → Thrown) → (ℕ → Text → Bool) → Signals → Signals → Type 0
Aborts reason is_run before after =
    (c : ℕ)
    → (after c ≡ before c)
      ⊎ ((before c ≡ none)
          × (name : Text) × (is_run c name ≡ true)
          × (after c ≡ some (reason name)))

Aborts-trans :
    {reason : Text → Thrown} {is_run : ℕ → Text → Bool} {s t u : Signals}
    → Aborts reason is_run s t
    → Aborts reason is_run t u
    → Aborts reason is_run s u
Aborts-trans first next c = elim (first c) [
  | inl kept ↦ elim (next c) [
    | inl still ↦ inl (still ∙ kept)
    | inr (unset, name, run, set) ↦ inr (sym kept ∙ unset, name, run, set)
  ]
  | inr (unset, name, run, set) ↦ elim (next c) [
    | inl still ↦ inr (unset, name, run, still ∙ set)
    | inr (unset', other, again, reset) ↦ cc
  ]
]

Aborts-weaken :
    {reason : Text → Thrown} {is_run may_run : ℕ → Text → Bool} {s t : Signals}
    → ((c : ℕ) (name : Text) → is_run c name ≡ true → may_run c name ≡ true)
    → Aborts reason is_run s t
    → Aborts reason may_run s t
Aborts-weaken more aborts c = elim (aborts c) [
  | inl kept ↦ inl kept
  | inr (unset, name, run, set) ↦ inr (unset, name, more c name run, set)
]

ran :
    (d : LiveDelivery) (c : ℕ) (ds : List LiveDelivery)
    → eqb c d.controller ≡ true
    → runs_on c d.name (d ∷ ds) ≡ true
ran d c ds same =
    let named = ==_refl d.name in
    ground (arith, named, same, eqb_iff c d.controller, eqb_iff d.controller c)

abort-Aborts :
    (reason : Text → Thrown) (d : LiveDelivery) (ds : List LiveDelivery) (s : Signals)
    → Aborts reason (λ c name. runs_on c name (d ∷ ds)) s (abort d.controller (reason d.name) s)
abort-Aborts reason d ds s c = elim (Bool-cases (eqb c d.controller)) [
  | inl same ↦ elim (Option-cases (s c)) [
    | inl unset ↦ inr (unset, d.name, ran d c ds same, rw (same, unset) refl)
    | inr (held, set) ↦ inl (rw (same, set) refl)
  ]
  | inr other ↦ inl (rw other refl)
]

pub abort_each-Aborts :
    (reason : Text → Thrown) (ds : List LiveDelivery) (s : Signals)
    → Aborts reason (λ c name. runs_on c name ds) s (abort_each reason ds s)
abort_each-Aborts reason [] s = λ c. inl refl
abort_each-Aborts reason (d ∷ ds) s = Aborts-trans (abort-Aborts reason d ds s) (
    Aborts-weaken (λ c name run. ground (arith, run))
      (abort_each-Aborts reason ds (abort d.controller (reason d.name) s)))

runs_on-append :
    (c : ℕ) (name : Text) (xs ys : List LiveDelivery)
    → runs_on c name (xs ++ ys) ≡ (runs_on c name xs || runs_on c name ys)
runs_on-append c name [] ys = refl
runs_on-append c name (x ∷ xs) ys = let rest = runs_on-append c name xs ys in ground (arith, rest)

runs_in-insert :
    (c : ℕ) (name queue : Text) (more : Bool) (group : List LiveDelivery)
    (groups : Assoc (List LiveDelivery))
    → runs_on c name group ≡ (runs_on c name (lookup queue groups or_else []) || more)
    → runs_in c name (insert queue group groups) ≡ (runs_in c name groups || more)
unfolding insert lookup
runs_in-insert c name queue more group [] h = ground (arith, h)
runs_in-insert c name queue more group ((held, old) ∷ groups) h =
    elim (Bool-cases (held == queue)) [
      | inl same ↦ let held_there = rw same at h in rw same (ground (arith, held_there))
      | inr other ↦
          let rest = runs_in-insert c name queue more group groups (rw other at h) in
          rw other (ground (arith, rest))
    ]

runs_in-from :
    (c : ℕ) (name : Text) (groups : Assoc (List LiveDelivery)) (ds : List LiveDelivery)
    → runs_in c name (by_queue_from groups ds) ≡ (runs_in c name groups || runs_on c name ds)
unfolding by_queue_from
runs_in-from c name groups [] = ground arith
runs_in-from c name groups (d ∷ ds) =
    let group = (lookup d.queue groups or_else []) ++ d ∷ [] in
    let rest = runs_in-from c name (insert d.queue group groups) ds in
    let set =
      runs_in-insert c name d.queue (runs_on c name (d ∷ [])) group groups
        (runs_on-append c name _ (d ∷ [])) in
    rw (rest, set) (ground arith)

module _ {S : Type 0} (take_cancelled : Text → List LiveDelivery → Exec S (List LiveDelivery))
    (gives_back : (queue : Text) (running given : List LiveDelivery) (s s' : S)
      → take_cancelled queue running s ≡ (ok given, s')
      → (c : ℕ) (name : Text) → runs_on c name given ≡ true
      → runs_on c name running ≡ true) where
  abbrev sweep_reason : Text → Thrown
  sweep_reason name = cancelled name none no_cause

  answered-Aborts :
      (queue : Text) (running : List LiveDelivery) (groups : Assoc (List LiveDelivery))
      (s : LiveState S) (answer : Result (List LiveDelivery) × S)
      → take_cancelled queue running s.outer ≡ answer
      → ((t : LiveState S)
          → Aborts sweep_reason
              (λ c name. runs_in c name groups)
              t.signals
              (sweep_each take_cancelled groups t).1.signals)
      → Aborts sweep_reason
          (λ c name. runs_in c name ((queue, running) ∷ groups))
          s.signals
          (sweep_each take_cancelled ((queue, running) ∷ groups) s).1.signals
  answered-Aborts queue running groups s (err e, o) is rest = λ c. inl (rw is refl)
  answered-Aborts queue running groups s (ok given, o) is rest =
      let aborted = abort_each sweep_reason given s.signals in
      rw is (
        Aborts-trans
          (Aborts-weaken
            (λ c name run.
              let was_running = gives_back queue running given s.outer o is c name run in
              ground (arith, was_running))
            (abort_each-Aborts sweep_reason given s.signals))
          (Aborts-weaken (λ c name run. ground (arith, run))
            (rest (record s { outer = o; signals = aborted }))))

  sweep_each-Aborts :
      (groups : Assoc (List LiveDelivery)) (s : LiveState S)
      → Aborts sweep_reason
          (λ c name. runs_in c name groups)
          s.signals
          (sweep_each take_cancelled groups s).1.signals
  sweep_each-Aborts [] s = λ c. inl refl
  sweep_each-Aborts ((queue, running) ∷ groups) s =
      answered-Aborts queue running groups s (take_cancelled queue running s.outer) refl
        (sweep_each-Aborts groups)

  -- If the driver gives back none but the deliveries that it was asked about, then a sweep, whether it
  -- ends well or with an error of the driver, leaves each signal as it was, or aborts a signal that was not
  -- aborted, as cancelled and by the name of a running delivery that has it.
  pub sweep_cancellations-Aborts :
      (s : LiveState S)
      → Aborts
          (λ name. cancelled name none no_cause)
          (λ c name. runs_on c name s.live)
          s.signals
          (sweep_cancellations take_cancelled s).1.signals
  unfolding sweep_cancellations
  sweep_cancellations-Aborts s =
      Aborts-weaken
        (λ c name run. let all = runs_in-from c name [] s.live in ground (arith, all, run))
        (sweep_each-Aborts (live_by_queue s.live) s)
