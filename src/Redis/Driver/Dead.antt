-- ===== src/Redis/Driver/Dead.antt =====
-- The dead records that the driver over Redis lists.
use jubs.Common.{◌≡◌, ◌≢◌, refl, Option, none, some, List, [], ◌∷◌}
use jubs.Text.{Text}
use jubs.Fault.{Thrown}
use jubs.Result.{err}
use jubs.Driver.{DeadEntry}
use jubs.Dead.Record.{read_dead_entry, dead_entry_value}
use jubs.Dead.Record.RoundTrip.{read_dead_entry-dead_entry_value}
use jubs.Redis.Bull.{BullJob, given}
use jubs.Redis.Driver.{listed_under, readable_entries}

-- The jobs of a dead queue, and the records that were written into them; what is no record of this
-- library stands for none.
pub data Holds : List BullJob → List (Text × DeadEntry) → Type 0 where
  empty : Holds [] []
  written :
      (job : BullJob) (id : Text) (e : DeadEntry) {jobs : List BullJob}
      {entries : List (Text × DeadEntry)}
      → given job.id ≡ some id
      → job.stored ≡ dead_entry_value e
      → e.job_id ≢ []
      → e.envelope.name ≢ []
      → Holds jobs entries
      → Holds (job ∷ jobs) ((id, e) ∷ entries)
  unreadable :
      (job : BullJob) (thrown : Thrown) {jobs : List BullJob} {entries : List (Text × DeadEntry)}
      → read_dead_entry job.stored ≡ err thrown
      → Holds jobs entries
      → Holds (job ∷ jobs) entries

listed_under-unreadable :
    (job : BullJob) (id : Option Text) (thrown : Thrown)
    → read_dead_entry job.stored ≡ err thrown
    → listed_under job id ≡ []
listed_under-unreadable job none thrown throws = refl
listed_under-unreadable job (some id) thrown throws = rw throws refl

-- A listing has the records that were written, in their order, whatever unreadable jobs stand among
-- them.
pub readable_entries-Holds :
    {jobs : List BullJob} {entries : List (Text × DeadEntry)}
    → Holds jobs entries
    → readable_entries jobs ≡ entries
unfolding readable_entries
readable_entries-Holds empty = refl
readable_entries-Holds (written job id e named holds some_id some_name rest) =
    rw
      (
        named,
        holds,
        read_dead_entry-dead_entry_value e some_id some_name,
        readable_entries-Holds rest,
      )
      refl
readable_entries-Holds (unreadable job thrown throws rest) =
    rw (listed_under-unreadable job (given job.id) thrown throws) (readable_entries-Holds rest)
