-- ===== src/Runtime/Consumers/Closed.antt =====
-- A start that fails leaves no consumer open.
use jubs.Common.{
  ◌≡◌, refl, sym, ap, ◌∙◌, List, [], ◌∷◌, ◌++◌, append-nil, append_assoc, suc, ◌+◌, length, arith,
}
use jubs.Fault.{Thrown}
use jubs.Result.{Result, ok, err}
use jubs.Effects.{Exec, pure, handle}
use jubs.Runtime.Consumers.{
  ConsumeRequest, with_settled, settle_all, close_all, unless_refused, open_consumers,
}

-- What was opened and what was asked to close, in order, as one reads it off the state.
pub record ConsumerLog {S C : Type 0} (consume : ConsumeRequest S → Exec S C)
    (close : C → Exec S (Unit {0})) : Type 0 where
  pub opened : S → List C
  pub closed : S → List C
  pub consume-opened :
      (request : ConsumeRequest S) (s : S)
      → opened (consume request s).1
        ≡ opened s ++ (elim (consume request s).0 [ ok c ↦ c ∷ [] | err e ↦ [] ])
  pub consume-closed :
      (request : ConsumeRequest S) (s : S) → closed (consume request s).1 ≡ closed s
  pub close-opened : (c : C) (s : S) → opened (close c s).1 ≡ opened s
  pub close-closed : (c : C) (s : S) → closed (close c s).1 ≡ closed s ++ c ∷ []

module _ {S C : Type 0} (consume : ConsumeRequest S → Exec S C) (close : C → Exec S (Unit {0}))
    (log : ConsumerLog consume close) where
  settle_all-closed :
      (requests : List (ConsumeRequest S)) (s : S)
      → log.closed (settle_all consume close requests s).1 ≡ log.closed s
  settle_all-closed [] s = refl
  settle_all-closed (request ∷ requests) s =
      settle_all-closed requests (consume request s).1 ∙ log.consume-closed request s

  with_settled-opened :
      (r : Result C) (settled : List C × List Thrown)
      → (with_settled consume close r settled).0
        ≡ (elim r [ ok c ↦ c ∷ [] | err e ↦ [] ]) ++ settled.0
  with_settled-opened (ok c) (opened, refused) = refl
  with_settled-opened (err e) (opened, refused) = refl

  settle_all-opened :
      (requests : List (ConsumeRequest S)) (s : S)
      → log.opened (settle_all consume close requests s).1
        ≡ log.opened s ++ (settle_all consume close requests s).0.0
  settle_all-opened [] s = sym (append-nil (log.opened s))
  settle_all-opened (request ∷ requests) s =
      settle_all-opened requests (consume request s).1
      ∙ ap (λ l. l ++ (settle_all consume close requests (consume request s).1).0.0)
          (log.consume-opened request s)
      ∙ append_assoc (log.opened s) (elim (consume request s).0 [ ok c ↦ c ∷ [] | err e ↦ [] ])
          (settle_all consume close requests (consume request s).1).0.0
      ∙ ap (λ l. log.opened s ++ l)
          (sym (
            with_settled-opened (consume request s).0
              (settle_all consume close requests (consume request s).1).0))

  with_settled-length :
      (r : Result C) (settled : List C × List Thrown)
      → length (with_settled consume close r settled).0
          + length (with_settled consume close r settled).1
        ≡ suc (length settled.0 + length settled.1)
  with_settled-length (ok c) (opened, refused) = omega arith
  with_settled-length (err e) (opened, refused) = omega arith

  settle_all-length :
      (requests : List (ConsumeRequest S)) (s : S)
      → length (settle_all consume close requests s).0.0
          + length (settle_all consume close requests s).0.1
        ≡ length requests
  settle_all-length [] s = refl
  settle_all-length (request ∷ requests) s =
      with_settled-length (consume request s).0
        (settle_all consume close requests (consume request s).1).0
      ∙ ap suc (settle_all-length requests (consume request s).1)

  -- How a start leaves the log that was `s` before and is `t` now, when `opened` were opened.
  abbrev pub Leaves : List (ConsumeRequest S) → List C → S → Result (List C) → S → Type 0
  Leaves requests opened s (ok consumers) t =
      (consumers ≡ opened) × (length opened ≡ length requests) × (log.closed t ≡ log.closed s)
  Leaves requests opened s (err e) t = log.closed t ≡ log.closed s ++ opened

  caught-ok : (r : Result (Unit {0})) (s : S) → handle r (λ e. pure tt) s ≡ (ok tt, s)
  caught-ok (ok tt) s = refl
  caught-ok (err e) s = refl

  close_all-closed :
      (cs : List C) (s : S)
      → ((close_all consume close cs s).0 ≡ ok tt)
        × (log.closed (close_all consume close cs s).1 ≡ log.closed s ++ cs)
        × (log.opened (close_all consume close cs s).1 ≡ log.opened s)
  close_all-closed [] s = (refl, sym (append-nil (log.closed s)), refl)
  close_all-closed (c ∷ cs) s =
      let (ends, now_closed, still_opened) = close_all-closed cs (close c s).1 in
      rw (caught-ok (close c s).0 (close c s).1) (
        ends,
        now_closed
            ∙ ap (λ l. l ++ cs) (log.close-closed c s)
            ∙ append_assoc (log.closed s) (c ∷ []) cs,
        still_opened ∙ log.close-opened c s,
      )

  unless_refused-Leaves :
      (requests : List (ConsumeRequest S)) (opened : List C) (refused : List Thrown) (s t : S)
      → log.closed t ≡ log.closed s
      → length opened + length refused ≡ length requests
      → let (r, u) = unless_refused consume close opened refused t in
        (log.opened u ≡ log.opened t) × Leaves requests opened s r u
  unless_refused-Leaves requests opened [] s t same all = (refl, (refl, omega (arith, all), same))
  unless_refused-Leaves requests opened (e ∷ refused) s t same all =
      let (ends, now_closed, still_opened) = close_all-closed opened t in
      rw ends (still_opened, now_closed ∙ ap (λ l. l ++ opened) same)

  -- A start whose driver opens and closes what its log says opens some consumers, and either gives back
  -- all of them, one for each request, and has closed none, or fails and has asked each of them to close.
  pub open_consumers-Leaves :
      (requests : List (ConsumeRequest S)) (s : S)
      → let (r, t) = open_consumers consume close requests s in
        (opened : List C) × (log.opened t ≡ log.opened s ++ opened) × Leaves requests opened s r t
  unfolding open_consumers
  open_consumers-Leaves requests s =
      let (same_opened, leaves) =
        unless_refused-Leaves requests (settle_all consume close requests s).0.0
          (settle_all consume close requests s).0.1 s (settle_all consume close requests s).1
          (settle_all-closed requests s) (settle_all-length requests s) in
      (
        (settle_all consume close requests s).0.0,
        same_opened ∙ settle_all-opened requests s,
        leaves,
      )
