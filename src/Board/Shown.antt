-- ===== src/Board/Shown.antt =====
-- The queues that a board shows.
use jubs.Common.{
  ◌≡◌, refl, ap, sym, ◌∙◌, Bool, true, false, not, ◌&&◌, ◌||◌, List, [], ◌∷◌, ◌++◌, map, keep, find,
  any, length, length-append, take, take-append_length, arith, Bool-cases, inl, inr, ◌or_else◌,
}
use mathlib.Core.List.{map-append}
use jubs.Definition.{settings}
use jubs.Text.{Text, ◌==◌}
use jubs.Text.Laws.{==_sound, ==_refl}
use jubs.Result.{ok, >>=-eq-ok, ok-injective, ◌>>◌}
use jubs.Dead.Names.{dead_queue_name}
use jubs.Runtime.Start.{among, unique_names}
use jubs.Board.{
  BoardConfig, BoardQueue, Descriptions, live_queues, dead_names, some_queue, no_stray,
  dead_board_queue, live_board_queue, shown, board_queues,
}

-- No name stands in the list twice.
abbrev pub distinct : List Text → Bool
distinct [] = true
distinct (x ∷ xs) = not (among x xs) && distinct xs

-- A queue is writable under this name.
abbrev pub is_writable : Text → List BoardQueue → Bool
is_writable name queues = any (λ q. q.name == name && not q.read_only) queues

among-unique_names :
    (name : Text) (seen names : List Text)
    → among name (unique_names seen names) ≡ (among name names && not (among name seen))
among-unique_names name seen [] = refl
among-unique_names name seen (x ∷ names) =
    let rest = among-unique_names name (x ∷ seen) names in
    elim (Bool-cases (x == name)) [
      | inl same ↦
          let same_seen = ap (λ q. among q seen) (==_sound x name same) in
          ground (arith, rest, same, same_seen)
      | inr other ↦ ground (arith, rest, other)
    ]

unseen : (x : Text) (seen names : List Text) → among x (unique_names (x ∷ seen) names) ≡ false
unseen x seen names =
    let all = among-unique_names x (x ∷ seen) names in
    let itself = ==_refl x in ground (arith, all, itself)

distinct-unique_names : (seen names : List Text) → distinct (unique_names seen names) ≡ true
distinct-unique_names seen [] = refl
distinct-unique_names seen (x ∷ names) =
    let rest = distinct-unique_names (x ∷ seen) names in
    let absent = unseen x seen names in ground (arith, rest, absent)

among-keep :
    (p : Text → Bool) (name : Text) (xs : List Text)
    → among name (keep p xs) ≡ (among name xs && p name)
among-keep p name [] = refl
among-keep p name (x ∷ xs) =
    let rest = among-keep p name xs in
    elim (Bool-cases (x == name)) [
      | inl same ↦
          let same_test = ap p (==_sound x name same) in ground (arith, rest, same, same_test)
      | inr other ↦ ground (arith, rest, other)
    ]

distinct-keep :
    (p : Text → Bool) (xs : List Text) → distinct xs ≡ true → distinct (keep p xs) ≡ true
distinct-keep p [] h = refl
distinct-keep p (x ∷ xs) h =
    let absent = among-keep p x xs in ground (arith, absent, distinct-keep p xs)

among-append :
    (name : Text) (xs ys : List Text) → among name (xs ++ ys) ≡ (among name xs || among name ys)
among-append name [] ys = refl
among-append name (x ∷ xs) ys = let rest = among-append name xs ys in ground (arith, rest)

not_among :
    (p : Text → Bool) (x : Text) (ys : List Text)
    → ((name : Text) → among name ys ≡ true → p name ≡ false)
    → p x ≡ true
    → among x ys ≡ false
not_among p x ys apart kept = elim (Bool-cases (among x ys)) [
  | inl there ↦ let refused_here = apart x there in cc
  | inr absent ↦ absent
]

distinct-append :
    (p : Text → Bool) (xs ys : List Text)
    → ((name : Text) → among name ys ≡ true → p name ≡ false)
    → distinct xs ≡ true
    → distinct ys ≡ true
    → distinct (keep p xs ++ ys) ≡ true
distinct-append p [] ys apart h k = k
distinct-append p (x ∷ xs) ys apart h k = elim (Bool-cases (p x)) [
  | inl kept ↦
      let tail = distinct-append p xs ys apart (ground arith) k in
      let in_both = among-append x (keep p xs) ys in
      let in_first = among-keep p x xs in
      let not_last = not_among p x ys apart kept in
      rw kept (ground (arith, tail, in_both, in_first, not_last))
  | inr gone ↦ rw gone (distinct-append p xs ys apart (ground arith) k)
]

append_cancel : (a b end : Text) → a ++ end ≡ b ++ end → a ≡ b
append_cancel a b end same =
    let same_length = ap length same in
    let lengths : length a ≡ length b =
      omega (arith, same_length, length-append a end, length-append b end) in
    sym (take-append_length a end)
    ∙ ap (λ t. take (length a) t) same
    ∙ ap (λ n. take n (b ++ end)) lengths
    ∙ take-append_length b end

dead_name-== : (a b : Text) → (dead_queue_name a == dead_queue_name b) ≡ (a == b)
unfolding dead_queue_name
dead_name-== a b = elim (Bool-cases (a == b)) [
  | inl same ↦ rw (==_sound a b same, ==_refl b) (==_refl _)
  | inr other ↦ elim (Bool-cases (dead_queue_name a == dead_queue_name b)) [
    | inl one ↦
        let equal = append_cancel a b _ (==_sound _ _ one) in
        let itself : (a == b) ≡ true = rw equal (==_refl b) in cc
    | inr two ↦ two ∙ sym other
  ]
]

among-dead :
    (q : Text) (xs : List Text) → among (dead_queue_name q) (map dead_queue_name xs) ≡ among q xs
among-dead q [] = refl
among-dead q (x ∷ xs) = rw (dead_name-== x q, among-dead q xs) refl

distinct-dead : (xs : List Text) → distinct (map dead_queue_name xs) ≡ distinct xs
distinct-dead [] = refl
distinct-dead (x ∷ xs) = rw (among-dead x xs, distinct-dead xs) refl

abbrev pub names : List BoardQueue → List Text
names queues = map (λ q. q.name) queues

module _ (described : Descriptions) where
  names-live :
      (read_only : Bool) (xs : List Text)
      → names (map (live_board_queue described read_only) xs) ≡ xs
  names-live read_only [] = refl
  names-live read_only (x ∷ xs) = ap (λ l. x ∷ l) (names-live read_only xs)

  names-dead :
      (xs : List Text) → names (map (dead_board_queue described) xs) ≡ map dead_queue_name xs
  names-dead [] = refl
  names-dead (x ∷ xs) = ap (λ l. dead_queue_name x ∷ l) (names-dead xs)

  writable-append :
      (name : Text) (xs ys : List BoardQueue)
      → is_writable name (xs ++ ys) ≡ (is_writable name xs || is_writable name ys)
  writable-append name [] ys = refl
  writable-append name (x ∷ xs) ys = let rest = writable-append name xs ys in ground (arith, rest)

  writable-live :
      (name : Text) (read_only : Bool) (xs : List Text)
      → is_writable name (map (live_board_queue described read_only) xs)
        ≡ (among name xs && not read_only)
  writable-live name read_only [] = refl
  writable-live name read_only (x ∷ xs) =
      let rest = writable-live name read_only xs in ground (arith, rest)

  writable-dead :
      (name : Text) (xs : List Text)
      → is_writable name (map (dead_board_queue described) xs) ≡ false
  writable-dead name [] = refl
  writable-dead name (x ∷ xs) = let rest = writable-dead name xs in ground (arith, rest)

  module _ (config : BoardConfig) where
    names-shown :
        names (shown described config)
        ≡ keep (λ name. not (among name (dead_names config))) (live_queues config)
          ++ dead_names config
    names-shown =
        rw
          (
            map-append (λ (q : BoardQueue). q.name)
                (map (live_board_queue described (config.read_only or_else true))
                  (keep (λ name. not (among name (dead_names config))) (live_queues config)))
                (map (dead_board_queue described)
                  (unique_names [] (config.dead_queues or_else []))),
            names-live (config.read_only or_else true)
                (keep (λ name. not (among name (dead_names config))) (live_queues config)),
            names-dead (unique_names [] (config.dead_queues or_else [])),
          )
          refl

    shown-distinct : distinct (names (shown described config)) ≡ true
    shown-distinct = rw names-shown (
        distinct-append (λ name. not (among name (dead_names config))) (live_queues config)
          (dead_names config) (λ name there. rw there refl)
          (distinct-unique_names [] (map (λ d. (settings d).queue) config.definitions))
          (distinct-dead (unique_names [] (config.dead_queues or_else []))
            ∙ distinct-unique_names [] (config.dead_queues or_else [])))

    shown-among :
        (name : Text)
        → among name (names (shown described config)) ≡ (
            among name (map (λ d. (settings d).queue) config.definitions)
            || among name (dead_names config))
    shown-among name =
        let both =
          among-append name (keep (λ n. not (among n (dead_names config))) (live_queues config))
            (dead_names config) in
        let kept = among-keep (λ n. not (among n (dead_names config))) name (live_queues config) in
        let live = among-unique_names name [] (map (λ d. (settings d).queue) config.definitions) in
        rw names-shown (ground (arith, both, kept, live))

    shown-writable :
        (name : Text)
        → is_writable name (shown described config) ≡ (
            among name (map (λ d. (settings d).queue) config.definitions)
            && not (among name (dead_names config))
            && not (config.read_only or_else true))
    shown-writable name =
        let live_part = keep (λ n. not (among n (dead_names config))) (live_queues config) in
        let read_only = config.read_only or_else true in
        let dead_part = unique_names [] (config.dead_queues or_else []) in
        let both =
          writable-append name (map (live_board_queue described read_only) live_part)
            (map (dead_board_queue described) dead_part) in
        let of_live = writable-live name read_only live_part in
        let of_dead = writable-dead name dead_part in
        let kept = among-keep (λ n. not (among n (dead_names config))) name (live_queues config) in
        let live = among-unique_names name [] (map (λ d. (settings d).queue) config.definitions) in
        ground (arith, both, of_live, of_dead, kept, live)

    opened :
        {queues : List BoardQueue}
        → board_queues described config ≡ ok queues
        → shown described config ≡ queues
    unfolding board_queues
    opened opens =
        let stray =
          find (λ queue. not (among queue (live_queues config))) (config.dead_queues or_else []) in
        let (u, some_live, rest) =
          >>=-eq-ok (some_queue (live_queues config))
            (λ v. do no_stray stray; ok (shown described config)) opens in
        let (w, no_other, same) =
          >>=-eq-ok (no_stray stray) (λ v. ok (shown described config)) rest in
        ok-injective same

    -- A board that opens shows every name once. It shows the queues of its definitions and the dead names
    -- of its dead queues, and no other; and one can write to a queue of a definition if the board is not
    -- read only and the queue has not the name of one of its dead queues, and to no other queue.
    pub board_queues_lem :
        (name : Text) {queues : List BoardQueue}
        → board_queues described config ≡ ok queues
        → (distinct (names queues) ≡ true)
          × (among name (names queues) ≡ (
              among name (map (λ d. (settings d).queue) config.definitions)
              || among name (dead_names config)))
          × (is_writable name queues ≡ (
              among name (map (λ d. (settings d).queue) config.definitions)
              && not (among name (dead_names config))
              && not (config.read_only or_else true)))
    board_queues_lem name {queues} opens =
        let is : shown described config ≡ queues = opened opens in
        rw (← is) (shown-distinct, shown-among name, shown-writable name)
