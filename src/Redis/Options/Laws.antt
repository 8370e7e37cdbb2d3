-- ===== src/Redis/Options/Laws.antt =====
-- What the options that BullMQ is given still tell.
use jubs.Common.{
  ℕ, suc, ◌+◌, ◌*◌, ◌≤◌, ◌<◌, ◌≡◌, ◌≢◌, refl, ap, ap₂, Bool, true, false, Option, none, some, List,
  [], ◌∷◌, ◌++◌, map, arith, All, sym, ◌∙◌,
}
use mathlib.Core.List.{map-append}
use jubs.Text.{Text, includes}
use jubs.JobId.{flow_id_marker, compose_child_id, read_child_slot}
use jubs.JobId.Laws.{read_child_slot-compose_child_id}
use jubs.Definition.{ResolvedUnique, Delivery, first_of_key, last_of_key, one_at_a_time}
use jubs.Driver.{FlowNode, node, FlowChildren, childless, child}
use jubs.Redis.Options.{
  DeduplicationOptions, to_deduplication, to_template_options, FlowJobNode, flow_job, FlowJobs,
  no_jobs, and_job, to_flow_job, to_flow_jobs, dependent,
}

-- The uniqueness that options were made of.
unique_of : DeduplicationOptions → ResolvedUnique
unique_of options = by_flags options.keep_last_if_active options.extend options.ttl
  where
    by_flags : Bool → Bool → Option ℕ → ResolvedUnique
    by_flags true extend ttl = one_at_a_time options.id
    by_flags false true (some ttl) = last_of_key options.id ttl
    by_flags false true none = first_of_key options.id none
    by_flags false false ttl = first_of_key options.id ttl

unique_of-to_deduplication : (u : ResolvedUnique) → unique_of (to_deduplication u) ≡ u
unfolding unique_of to_deduplication
unique_of-to_deduplication (one_at_a_time key) = refl
unique_of-to_deduplication (last_of_key key ttl) = refl
unique_of-to_deduplication (first_of_key key ttl) = refl

-- Two uniquenesses that BullMQ is given the same options for are the same.
pub to_deduplication-injective :
    (u v : ResolvedUnique) → to_deduplication u ≡ to_deduplication v → u ≡ v
to_deduplication-injective u v same =
    sym (unique_of-to_deduplication u) ∙ ap unique_of same ∙ unique_of-to_deduplication v

pub remove_on_complete_age-bounds :
    (delivery : Delivery)
    → let age = (to_template_options delivery).remove_on_complete_age in
      (age * 1000 ≤ delivery.keep_completed_for_ms + 500)
      × (delivery.keep_completed_for_ms < age * 1000 + 500)
unfolding to_template_options
remove_on_complete_age-bounds delivery = (omega arith, omega arith)

-- The slots of the children of a flow, and the ids that BullMQ is given for them, in one order.
unfoldable mutual
  slots_of_node : FlowNode → List Text
  slots_of_node (node request children) = slots_of_children children

  pub slots_of_children : FlowChildren → List Text
  slots_of_children childless = []
  slots_of_children (child slot one rest) = slot ∷ slots_of_node one ++ slots_of_children rest

abbrev id_or_none : Option Text → Text
id_or_none none = []
id_or_none (some id) = id

abbrev own_id : FlowJobNode → Text
own_id (flow_job name queue envelope opts children) = id_or_none opts.job_id

mutual
  ids_of_job : FlowJobNode → List Text
  ids_of_job (flow_job name queue envelope opts children) = ids_of_jobs children

  pub ids_of_jobs : FlowJobs → List Text
  ids_of_jobs no_jobs = []
  ids_of_jobs (and_job job rest) = own_id job ∷ ids_of_job job ++ ids_of_jobs rest

-- A slot name that an id can carry.
abbrev pub IsSlot : Text → Type 0
IsSlot slot = (slot ≢ []) × (includes flow_id_marker slot ≡ false)

abbrev SlotsOf : List Text → List Text → Type 0
SlotsOf ids slots = map read_child_slot ids ≡ slots

All-append : {A : Type 0} (P : A → Type 0) (xs ys : List A) → All P (xs ++ ys) → All P xs × All P ys
All-append P [] ys all = (tt, all)
All-append P (x ∷ xs) ys (one, rest) =
    let (left, right) = All-append P xs ys rest in ((one, left), right)

module _ (uuid : ℕ → Text) where
  child_ids :
      (slot : Text) (ids rest slots others : List Text) (n : ℕ)
      → IsSlot slot
      → SlotsOf ids slots
      → SlotsOf rest others
      → SlotsOf (compose_child_id (uuid n) slot ∷ ids ++ rest) (slot ∷ slots ++ others)
  child_ids slot ids rest slots others n (named, unmarked) inner later =
      ap₂ (λ first more. first ∷ more)
        (read_child_slot-compose_child_id (uuid n) slot named unmarked)
        (map-append read_child_slot ids rest ∙ ap₂ (λ xs ys. xs ++ ys) inner later)

  dependent-own_id : (id : Text) (job : FlowJobNode) → own_id (dependent id job) ≡ id
  dependent-own_id id (flow_job name queue envelope opts children) = refl

  dependent-ids : (id : Text) (job : FlowJobNode) → ids_of_job (dependent id job) ≡ ids_of_job job
  unfolding ids_of_job
  dependent-ids id (flow_job name queue envelope opts children) = refl

  mutual
    unfolding to_flow_job slots_of_children ids_of_jobs

    to_flow_job-slots :
        (tree : FlowNode) (minted : ℕ)
        → All IsSlot (slots_of_node tree)
        → SlotsOf (ids_of_job (to_flow_job uuid tree minted).0) (slots_of_node tree)
    to_flow_job-slots (node request children) minted named = children-slots children minted named

    children-slots :
        (children : FlowChildren) (minted : ℕ)
        → All IsSlot (slots_of_children children)
        → SlotsOf (ids_of_jobs (to_flow_jobs uuid children minted).0) (slots_of_children children)
    children-slots childless minted named = refl
    children-slots (child slot one rest) minted (first, named) =
        let (inner, later) = All-append IsSlot (slots_of_node one) (slots_of_children rest) named in
        let (job, minted') = to_flow_job uuid one minted in
        let id = compose_child_id (uuid minted') slot in
        rw (dependent-own_id id job, dependent-ids id job)
          (child_ids slot _ _ _ _ minted' first (to_flow_job-slots one minted inner)
            (children-slots rest (suc minted') later))

  -- The ids that BullMQ is given for the children below a job of a flow, at every depth, are read back
  -- as the slots that the flow fills with them, in the same order, if no slot is empty or has the marker
  -- of such ids in its name.
  pub to_flow_jobs-slots :
      (children : FlowChildren) (minted : ℕ)
      → All IsSlot (slots_of_children children)
      → SlotsOf (ids_of_jobs (to_flow_jobs uuid children minted).0) (slots_of_children children)
  to_flow_jobs-slots children minted named = children-slots children minted named
