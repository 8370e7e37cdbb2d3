-- ===== src/Idempotency/Contract.antt =====
-- What an idempotency store promises about one key, apart from the clock that ends a lease.
use jubs.Common.{◌≡◌, ◌≢◌, refl, List, [], ◌∷◌, arith, if◌then◌else◌, All}
use jubs.Text.{Text, ◌==◌}
use jubs.Text.Laws.{==_iff}
use jubs.Idempotency.{
  KeptResult, IdempotencyLease, acquired, held, complete, ForgetOutcome, forgotten, not_found,
  running,
}

-- A key is absent, held under a token, or complete with a kept result.
pub data KeyState : Type 0 where
  absent : KeyState
  held_by : Text → KeyState
  completed : KeptResult → KeyState

-- What `acquire` answers, with the token that it mints.
abbrev pub acquire_answer : Text → KeyState → IdempotencyLease
acquire_answer token absent = acquired token
acquire_answer token (held_by t) = held
acquire_answer token (completed kept) = complete kept

abbrev pub after_acquire : Text → KeyState → KeyState
after_acquire token absent = held_by token
after_acquire token k = k

-- Only the token that holds a key finishes it.
abbrev pub after_finish : Text → KeptResult → KeyState → KeyState
after_finish token kept absent = absent
after_finish token kept (held_by t) = if t == token then completed kept else held_by t
after_finish token kept (completed old) = completed old

abbrev pub after_release : Text → KeyState → KeyState
after_release token (held_by t) = if t == token then absent else held_by t
after_release token k = k

abbrev pub forget_answer : KeyState → ForgetOutcome
forget_answer absent = not_found
forget_answer (held_by t) = running
forget_answer (completed kept) = forgotten

abbrev pub after_forget : KeyState → KeyState
after_forget (completed kept) = absent
after_forget k = k

-- The operations that other parties may run on the key.
pub data Use : Type 0 where
  acquires releases : Text → Use
  finishes : Text → KeptResult → Use
  forgets : Use

abbrev pub use_by : Use → KeyState → KeyState
use_by (acquires token) k = after_acquire token k
use_by (releases token) k = after_release token k
use_by (finishes token kept) k = after_finish token kept k
use_by forgets k = after_forget k

abbrev pub uses : List Use → KeyState → KeyState
uses [] k = k
uses (u ∷ us) k = uses us (use_by u k)

-- The use carries another token than `token`.
abbrev pub Foreign : Text → Use → Type 0
Foreign token (releases t) = t ≢ token
Foreign token (finishes t kept) = t ≢ token
Foreign token _ = Unit

held-use_by : (token : Text) (u : Use) → Foreign token u → use_by u (held_by token) ≡ held_by token
held-use_by token (acquires t) h = refl
held-use_by token (releases t) h = ground (arith, ==_iff token t)
held-use_by token (finishes t kept) h = ground (arith, ==_iff token t)
held-use_by token forgets h = refl

-- A held key stays held under its token through any sequence of uses that carry other tokens.
pub held-uses :
    (token : Text) (us : List Use)
    → All (Foreign token) us
    → uses us (held_by token) ≡ held_by token
held-uses token [] h = refl
held-uses token (u ∷ us) h = rw (held-use_by token u h.0) (held-uses token us h.1)
