-- ===== src/JobId.antt =====
-- src/JobId.ts: the ids of jobs and of the children of a flow. The random half of a child's id is
-- an argument.
pub mod Laws
use jubs.Common.{
  ℕ, suc, ◌+◌, ◌-◌, ◌||◌, Option, none, some, [], ◌∷◌, ◌++◌, ltb, eqb, length, take, drop,
  if◌then◌else◌,
}
use jubs.Text.{Text, index_of, codes}
use jubs.Fault.{not_a_job_id}
use jubs.Result.{Result, ok, refuse}

abbrev pub colon : ℕ
colon = b':'

-- `composeJobId`
unfoldable pub compose_job_id : Text → Text → Text
compose_job_id queue stored_id = queue ++ colon ∷ stored_id

abbrev pub flow_id_marker : ℕ
flow_id_marker = b'~'

-- `composeChildId`
unfoldable pub compose_child_id : (uuid slot : Text) → Text
compose_child_id uuid slot = slot ++ flow_id_marker ∷ uuid

abbrev slot_before : Text → Option ℕ → Text
slot_before stored_id none = []
slot_before stored_id (some cut) = if ltb cut 1 then [] else take cut stored_id

-- `readChildSlot`
unfoldable pub read_child_slot : Text → Text
read_child_slot stored_id = slot_before stored_id (index_of flow_id_marker stored_id)

-- The queue that keeps a job, and the id that it is stored under.
pub record JobAddress : Type 0 where
  pub queue : Text
  pub stored_id : Text

abbrev address_at : Text → Option ℕ → Result JobAddress
address_at id none = refuse (not_a_job_id id)
address_at id (some cut) =
    if ltb cut 1 || eqb cut (length id - 1)
    then refuse (not_a_job_id id)
    else ok (record { queue = take cut id; stored_id = drop (suc cut) id })

-- `readJobId`
unfoldable pub read_job_id : Text → Result JobAddress
read_job_id id = address_at id (index_of colon id)
