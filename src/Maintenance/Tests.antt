-- ===== src/Maintenance/Tests.antt =====
-- Runs of the maintenance coordinator.
use n0ding.Prelude.{
  ◌+◌, ◌≤◌, ◌<◌, pos, true, none, some, is_some, [], ◌∷◌, codes, length, get_elem?, ◌≡◌, refl, ◌↔◌,
  arith,
}
use n0ding.Maintenance.{
  Trigger, Result, Run, new_coordinator, begin, record_outcome, snapshot, System, Step, Reach, here,
  next_step, start, admit,
}
use n0ding.Maintenance.Exclusion.{collections_exclude, calls_coalesce, running_and_finished}
use n0ding.Maintenance.Numbering.{run_ids}

-- A collection has begun at time 5.
abbrev begun : System
begun = admit start (begin Trigger.startup 5 start.coordinator)

begun-Reach : Reach start begun
begun-Reach = next_step here (Step.begins Trigger.startup 5)

abbrev nothing_removed : Result
nothing_removed = record {
  removed_objects = pos 0;
  removed_bytes = pos 0;
  skipped_objects = pos 0;
  errors = pos 0;
}

-- Its outcome is written at time 9.
abbrev written : System
written = record {
  coordinator = record_outcome 0 nothing_removed none 9 begun.coordinator;
  active = (0, true) ∷ [];
}

written-Reach : Reach start written
unfolding begin new_coordinator
written-Reach = next_step begun-Reach (Step.writes 0 0 9 nothing_removed none refl)

begun_active : length begun.active ≡ 1
unfolding begin new_coordinator
begun_active = refl

abbrev first_run : Run
first_run = record {
  id = 1;
  trigger = Trigger.startup;
  started_at = 5;
  finished_at = none;
  result = nothing_removed;
  error = [];
}

first_run_there : get_elem? begun.coordinator.runs 0 ≡ some first_run
unfolding begin new_coordinator
first_run_there = refl

few_runs : length begun.coordinator.runs < 18446744073709551616
unfolding begin new_coordinator
few_runs = omega arith

collections_exclude_example :
    (length begun.active ≤ 1)
    × (((snapshot begun.coordinator).state ≡ codes "running") ↔ (length begun.active ≡ 1))
    × (((snapshot begun.coordinator).state ≡ codes "idle") ↔ (length begun.active ≡ 0))
collections_exclude_example = collections_exclude begun begun-Reach

calls_coalesce_example :
    (run : Run) × (begin Trigger.operator 7 begun.coordinator ≡ (begun.coordinator, some run, none))
    × ((snapshot begun.coordinator).current ≡ some run)
calls_coalesce_example = calls_coalesce begun Trigger.operator 7 begun-Reach begun_active

running_and_finished_example :
    (run : Run) × ((snapshot written.coordinator).state ≡ codes "running")
    × ((snapshot written.coordinator).current ≡ some run)
    × (is_some run.finished_at ≡ true)
running_and_finished_example = running_and_finished written 0 written-Reach refl

run_ids_example : first_run.id ≡ 0 + 1
run_ids_example = run_ids begun begun-Reach 0 first_run first_run_there few_runs
