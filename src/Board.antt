-- ===== src/Board.antt =====
-- src/dashboard/Board.ts: which queues a board shows, and how. The texts that describe a queue are a
-- parameter: `described` has the one of a dead queue, and those of a live one by whether it is read
-- only. An empty name is false in the source, so it is never the stray dead queue.
pub mod Shown
use jubs.Common.{
  Bool, true, false, not, ◌||◌, Option, none, some, List, [], ◌∷◌, ◌++◌, map, keep, find,
  if◌then◌else◌, ◌or_else◌,
}
use jubs.Text.{Text, codes, ◌==◌}
use jubs.Fault.{no_board, stray_board_queue}
use jubs.Result.{Result, ok, err, refuse, ◌>>=◌, ◌>>◌}
use jubs.Definition.{JobDefinition, settings}
use jubs.Dead.Names.{dead_queue_name}
use jubs.Runtime.Start.{among, unique_names}

pub record BoardConfig : Type 0 where
  pub definitions : List JobDefinition
  pub dead_queues : Option (List Text)
  pub read_only : Option Bool

pub record BoardQueue : Type 0 where
  pub name : Text
  pub read_only : Bool
  pub description : Text

-- What describes a queue on the board.
pub record Descriptions : Type 0 where
  pub of_dead : Text → Text
  pub of_live : Bool → Text

abbrev pub live_queues : BoardConfig → List Text
live_queues config = unique_names [] (map (λ d. (settings d).queue) config.definitions)

-- The names of the dead queues.
abbrev pub dead_names : BoardConfig → List Text
dead_names config = map dead_queue_name (unique_names [] (config.dead_queues or_else []))

abbrev some_queue : List Text → Result (Unit {0})
some_queue [] = refuse no_board
some_queue (queue ∷ queues) = ok tt

abbrev no_stray : Option Text → Result (Unit {0})
no_stray none = ok tt
no_stray (some []) = ok tt
no_stray (some (c ∷ queue)) = refuse (stray_board_queue (c ∷ queue))

module _ (described : Descriptions) where
  abbrev dead_board_queue : Text → BoardQueue
  dead_board_queue queue = record {
    name = dead_queue_name queue;
    read_only = true;
    description = described.of_dead queue;
  }

  abbrev live_board_queue : Bool → Text → BoardQueue
  live_board_queue read_only name = record {
    name = name;
    read_only = read_only;
    description = described.of_live read_only;
  }

  abbrev pub shown : BoardConfig → List BoardQueue
  shown config =
      map (live_board_queue (config.read_only or_else true))
        (keep (λ name. not (among name (dead_names config))) (live_queues config))
      ++ map dead_board_queue (unique_names [] (config.dead_queues or_else []))

  -- `boardQueues`
  unfoldable pub board_queues : BoardConfig → Result (List BoardQueue)
  board_queues config = do
    some_queue (live_queues config)
    no_stray
        (find (λ queue. not (among queue (live_queues config))) (config.dead_queues or_else []))
    ok (shown config)
