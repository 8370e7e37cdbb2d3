-- ===== src/Examples/Boards.antt =====
-- A board that is not read only, over two definitions of one queue that is also a dead queue.
use jubs.Common.{
  ◌≡◌, refl, true, false, not, ◌&&◌, ◌||◌, some, [], ◌∷◌, map, if◌then◌else◌, ◌or_else◌,
}
use jubs.Text.{Text, codes}
use jubs.Definition.{settings}
use jubs.Runtime.Start.{among}
use jubs.Board.{BoardConfig, Descriptions, dead_names, shown, board_queues}
use jubs.Board.Shown.{distinct, is_writable, names, board_queues_lem}
use jubs.Examples.Samples.{mail_queue, email_job}

abbrev described : Descriptions
described = record {
  of_dead = λ queue. codes "buried";
  of_live = λ read_only. if read_only then codes "read only" else codes "open";
}

abbrev open_board : BoardConfig
open_board = record {
  definitions = email_job ∷ email_job ∷ [];
  dead_queues = some (mail_queue ∷ mail_queue ∷ []);
  read_only = some false;
}

board_queues_lem_example :
    let queues = shown described open_board in
    (distinct (names queues) ≡ true)
    × (among mail_queue (names queues) ≡ (
        among mail_queue (map (λ d. (settings d).queue) open_board.definitions)
        || among mail_queue (dead_names open_board)))
    × (is_writable mail_queue queues ≡ (
        among mail_queue (map (λ d. (settings d).queue) open_board.definitions)
        && not (among mail_queue (dead_names open_board))
        && not (open_board.read_only or_else true)))
unfolding board_queues jubs.Text.◌==◌
board_queues_lem_example = board_queues_lem described open_board mail_queue refl
