-- ===== src/Examples/Starts.antt =====
-- A start of two queues, the second of which the driver refuses; a sweep of two deliveries, the first of
-- which was aborted before; and a close that does not wait for them.
use jubs.Common.{
  ◌≡◌, refl, sym, ap, subst, ℕ, length, eqb, Bool, true, false, ◌||◌, ◌&&◌, Option, none, some,
  is_some, List, [], ◌∷◌, ◌++◌, Bool-cases, inl, inr, append-nil, if◌then◌else◌,
}
use jubs.Text.{Text, codes, ◌==◌}
use jubs.Value.{Value, undefined}
use jubs.Fault.{refused, no_board, cancelled, shutdown_abort, no_cause}
use jubs.Result.{ok, err, ok-injective}
use jubs.Effects.{Exec}
use jubs.Runtime.Consumers.{ConsumeRequest, consume_request, open_consumers}
use jubs.Runtime.Consumers.Closed.{ConsumerLog, Leaves, open_consumers-Leaves}
use jubs.Runtime.Live.{LiveDelivery, LiveState, sweep_cancellations, drain_consumers}
use jubs.Runtime.Live.Sweep.{runs_on, Aborts, sweep_cancellations-Aborts}
use jubs.Runtime.Live.Close.{is_live, drain_consumers_lem}
use jubs.Examples.Samples.{mail_queue}

-- The consumers that were opened, and those that were asked to close.
abbrev Desk : Type 0
Desk = List ℕ × List ℕ

abbrev opens : ConsumeRequest Desk → Exec Desk ℕ
opens request (opened, closed) =
    if request.queue == mail_queue
    then (ok (length opened), (opened ++ length opened ∷ [], closed))
    else (err (refused no_board), (opened, closed))

abbrev closes : ℕ → Exec Desk (Unit {0})
closes consumer (opened, closed) = (ok tt, (opened, closed ++ consumer ∷ []))

opens-opened :
    (request : ConsumeRequest Desk) (s : Desk)
    → (opens request s).1.0 ≡ s.0 ++ (elim (opens request s).0 [ ok c ↦ c ∷ [] | err e ↦ [] ])
opens-opened request (opened, closed) = elim (Bool-cases (request.queue == mail_queue)) [
  | inl here ↦ rw here refl
  | inr there ↦ rw (there, append-nil opened) refl
]

opens-closed : (request : ConsumeRequest Desk) (s : Desk) → (opens request s).1.1 ≡ s.1
opens-closed request (opened, closed) = elim (Bool-cases (request.queue == mail_queue)) [
  | inl here ↦ rw here refl
  | inr there ↦ rw there refl
]

abbrev desk_log : ConsumerLog opens closes
desk_log = record {
  opened = λ s. s.0;
  closed = λ s. s.1;
  consume-opened = opens-opened;
  consume-closed = opens-closed;
  close-opened = λ c s. refl;
  close-closed = λ c s. refl;
}

abbrev ends_at_once : Exec Desk Value
ends_at_once s = (ok undefined, s)

abbrev two_queues : List (ConsumeRequest Desk)
two_queues =
    consume_request mail_queue none (λ d. ends_at_once)
    ∷ consume_request (codes "none") none (λ d. ends_at_once)
    ∷ []

open_consumers-Leaves_example :
    let (r, t) = open_consumers opens closes two_queues ([], []) in
    (opened : List ℕ) × (t.0 ≡ opened) × Leaves opens closes desk_log two_queues opened ([], []) r t
open_consumers-Leaves_example = open_consumers-Leaves opens closes desk_log two_queues ([], [])

abbrev running_on : ℕ → Text → LiveDelivery
running_on controller name = record {
  running = record { id = codes "1"; attempts_started = 1 };
  queue = mail_queue;
  name = name;
  controller = controller;
}

abbrev busy : LiveState (Unit {0})
busy = record {
  live = running_on 1 (codes "send") ∷ running_on 2 (codes "read") ∷ [];
  signals = λ c. if eqb c 1 then some (shutdown_abort (codes "send") none no_cause) else none;
  outer = tt;
}

abbrev all_taken : Text → List LiveDelivery → Exec (Unit {0}) (List LiveDelivery)
all_taken queue running s = (ok running, s)

taken-given :
    (queue : Text) (running given : List LiveDelivery) (s s' : Unit {0})
    → all_taken queue running s ≡ (ok given, s')
    → (c : ℕ) (name : Text) → runs_on c name given ≡ true
    → runs_on c name running ≡ true
taken-given queue running given s s' is c name run =
    subst (λ ds. runs_on c name ds ≡ true) (sym (ok-injective (ap (λ p. p.0) is))) run

sweep_cancellations-Aborts_example :
    Aborts
      (λ name. cancelled name none no_cause)
      (λ c name. runs_on c name busy.live)
      busy.signals
      (sweep_cancellations all_taken busy).1.signals
sweep_cancellations-Aborts_example = sweep_cancellations-Aborts all_taken taken-given busy

abbrev expires : Option ℕ → Exec (LiveState (Unit {0})) Bool
expires timeout_ms s = (ok false, s)

drain_consumers_lem_example :
    let u = (drain_consumers expires (some 100) busy).1 in
    Aborts
      (λ name. shutdown_abort name none no_cause)
      (λ k name. runs_on k name busy.live)
      busy.signals
      u.signals
    × (is_some (u.signals 2) ≡ (is_some (busy.signals 2) || (true && is_live 2 busy.live)))
drain_consumers_lem_example = drain_consumers_lem expires (some 100) false busy busy 2 refl
