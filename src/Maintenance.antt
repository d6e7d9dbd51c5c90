-- ===== src/Maintenance.antt =====
-- internal/maintenance/coordinator.go: at most one collection at a time. A *Run is a place in a list
-- of runs, since `current`, `last` and the caller's variable are the same object. `Run` holds the
-- mutex twice and runs the collection between, so it is three steps here: `begin`, `record_outcome`
-- (the writes outside the mutex) and `retire`. Times are numbers.
pub mod Exclusion
pub mod Numbering
mod Tests
use n0ding.Prelude.{
  ℕ, suc, ◌+◌, ◌%◌, ℤ, pos, ◌+ℤ◌, int64, Bool, true, false, Option, none, some, List, [], ◌∷◌, ◌++◌,
  Text, codes, length, get_elem?, set, remove_at, ◌≡◌,
}

pub data Trigger : Type 0 where
  startup schedule pressure operator : Trigger

pub record Result : Type 0 where
  pub removed_objects : ℤ
  pub removed_bytes : ℤ
  pub skipped_objects : ℤ
  pub errors : ℤ

pub record Run : Type 0 where
  pub id : ℕ
  pub trigger : Trigger
  pub started_at : ℕ
  pub finished_at : Option ℕ
  pub result : Result
  pub error : Text

pub record Snapshot : Type 0 where
  pub state : Text
  pub current : Option Run
  pub last : Option Run

pub record Coordinator : Type 0 where
  pub next_id : ℕ
  pub runs : List Run
  pub current : Option ℕ
  pub last : Option ℕ

unfoldable pub new_coordinator : Coordinator
new_coordinator = record { next_id = 0; runs = []; current = none; last = none }

abbrev no_result : Result
no_result = record {
  removed_objects = pos 0;
  removed_bytes = pos 0;
  skipped_objects = pos 0;
  errors = pos 0;
}

-- A uint64 counter wraps.
abbrev pub next : ℕ → ℕ
next n = (n + 1) % 18446744073709551616

-- The first critical section of Run: the run that is reported, and its place if it was accepted.
abbrev begin_free : Trigger → ℕ → Coordinator → Coordinator × Option Run × Option ℕ
begin_free trigger now c =
    let run : Run = record {
      id = next c.next_id;
      trigger = trigger;
      started_at = now;
      finished_at = none;
      result = no_result;
      error = [];
    } in
    (
      record c {
        next_id = next c.next_id;
        runs = c.runs ++ run ∷ [];
        current = some (length c.runs);
      },
      some run,
      some (length c.runs),
    )

unfoldable pub begin : Trigger → ℕ → Coordinator → Coordinator × Option Run × Option ℕ
begin trigger now c = elim c.current [
  | none ↦ begin_free trigger now c
  | some p ↦ (c, get_elem? c.runs p, none)
]

-- run.Result, run.FinishedAt, run.Error and run.Result.Errors, given what the runner returned.
unfoldable pub with_outcome : Result → Option Text → ℕ → Run → Run
with_outcome result none now run = record run { result = result; finished_at = some now }
with_outcome result (some message) now run = record run {
  result = record result { errors = int64 (result.errors +ℤ pos 1) };
  finished_at = some now;
  error = message;
}

write_run : ℕ → Coordinator → Option Run → Coordinator
write_run p c none = c
write_run p c (some run) = record c { runs = set c.runs p run }

-- The writes through the pointer, outside the mutex.
unfoldable pub record_outcome : ℕ → Result → Option Text → ℕ → Coordinator → Coordinator
unfolding with_outcome write_run
record_outcome p result message now c = write_run p c (elim (get_elem? c.runs p) [
  | none ↦ none
  | some run ↦ some (with_outcome result message now run)
])

-- The second critical section of Run.
unfoldable pub retire : ℕ → Coordinator → Coordinator
retire p c = record c { current = none; last = some p }

abbrev deref : List Run → Option ℕ → Option Run
deref runs none = none
deref runs (some p) = get_elem? runs p

abbrev state_name : Option ℕ → Text
state_name none = codes "idle"
state_name (some p) = codes "running"

unfoldable pub snapshot : Coordinator → Snapshot
snapshot c = record {
  state = state_name c.current;
  current = deref c.runs c.current;
  last = deref c.runs c.last;
}

-- The calls of Run that were accepted and have not returned, each with its place and whether its
-- outcome is written.
pub record System : Type 0 where
  pub coordinator : Coordinator
  pub active : List (ℕ × Bool)

abbrev pub admit : System → Coordinator × Option Run × Option ℕ → System
admit s (c, _, none) = record s { coordinator = c }
admit s (c, _, some p) = record { coordinator = c; active = (p, false) ∷ s.active }

-- One step of some goroutine, chosen by the scheduler.
pub data Step (s : System) : System → Type 0 where
  begins : (trigger : Trigger) (now : ℕ) → Step s (admit s (begin trigger now s.coordinator))
  writes :
      (i p now : ℕ) (result : Result) (message : Option Text)
      → get_elem? s.active i ≡ some (p, false)
      → Step s (record {
        coordinator = record_outcome p result message now s.coordinator;
        active = set s.active i (p, true);
      })
  retires :
      (i p : ℕ)
      → get_elem? s.active i ≡ some (p, true)
      → Step s (record { coordinator = retire p s.coordinator; active = remove_at s.active i })

pub data Reach (s : System) : System → Type 0 where
  here : Reach s s
  next_step : {t u : System} → Reach s t → Step t u → Reach s u

abbrev pub start : System
start = record { coordinator = new_coordinator; active = [] }
