-- ===== src/Storage/Tests.antt =====
-- Runs of the storage controller: a budget of 1000 bytes, watermarks of 80% and 60%.
use n0ding.Prelude.{
  ℕ, ◌+◌, ◌-◌, ◌*◌, ◌/◌, ◌≤◌, ◌<◌, pos, pos_part, max_int64, InInt64, Bool, true, false, not,
  if◌then◌else◌, leb, List, [], ◌∷◌, All, ◌≡◌, refl, ◌↔◌, ◌⊎◌, inl, arith,
}
use n0ding.Storage.{Controller, Reservation, must_bypass, commit, release, snapshot}
use n0ding.Storage.Admit.{IsWellFormed, InRange, Fits, admits_iff}
use n0ding.Storage.Ledger.{Call, calls, IsCall, open_total}
use n0ding.Storage.Trace.{fresh, IsSetting, calls_in_budget}
use n0ding.Storage.Closing.{close_once, commit_outcome}
use n0ding.Storage.Watermarks.{snapshot_watermarks}

abbrev budget : ℕ
budget = 1000

abbrev some_calls : List Call
some_calls =
    Call.reserve (pos 300) (pos 5000)
    ∷ Call.reserve (pos 800) (pos 5000)
    ∷ Call.reserve (pos 200) (pos 5000)
    ∷ Call.commit 0 (pos 250) (pos 0)
    ∷ Call.release 1
    ∷ Call.remove (pos 50)
    ∷ []

setting : IsSetting 1000 100 0
setting = record {
  max_range = omega arith;
  min_free_range = omega arith;
  committed_range = omega arith;
  limited = inl (omega arith);
}

some_calls-IsCall : All IsCall some_calls
some_calls-IsCall = ground arith

calls_in_budget_example :
    ((calls some_calls (fresh 1000 8000 6000 100 0)).controller.reserved_bytes
      ≡ pos (open_total (calls some_calls (fresh 1000 8000 6000 100 0)).reservations))
    × ((budget ≡ 0)
        ⊎ (pos_part (calls some_calls (fresh 1000 8000 6000 100 0)).controller.committed_bytes
              + pos_part (calls some_calls (fresh 1000 8000 6000 100 0)).controller.reserved_bytes
            ≤ (if leb budget 0 then 0 else budget)))
calls_in_budget_example =
    calls_in_budget budget 8000 6000 100 0 some_calls setting some_calls-IsCall

-- 200 bytes are committed and 300 reserved.
abbrev in_use : Controller
in_use = record {
  max_bytes = pos 1000;
  high_basis_points = pos 8000;
  low_basis_points = pos 6000;
  min_free_bytes = pos 100;
  committed_bytes = pos 200;
  reserved_bytes = pos 300;
  bypass_objects = pos 0;
  bypass_bytes = pos 0;
}

in_use-IsWellFormed : IsWellFormed in_use
in_use-IsWellFormed = record {
  max_range = ground arith;
  min_free_range = ground arith;
  committed_range = ground arith;
  reserved_range = ground arith;
}

size_range : InInt64 (pos 400)
size_range = ground arith

free_range : InRange (pos 5000)
free_range = ground arith

admits_iff_example :
    (must_bypass (pos 400) (pos 5000) in_use ≡ false) ↔ Fits (pos 400) (pos 5000) in_use
admits_iff_example =
    admits_iff (pos 400) (pos 5000) in_use in_use-IsWellFormed size_range free_range

abbrev handed_out : Reservation
handed_out = record { bytes = pos 300; done = false }

abbrev committed : Controller × Reservation × Bool
committed = commit (pos 250) (pos 50) in_use handed_out

abbrev released : Controller × Reservation
released = release in_use handed_out

close_once_example :
    (commit (pos 10) (pos 0) committed.0 committed.1 ≡ (committed.0, committed.1, false))
    × (release committed.0 committed.1 ≡ (committed.0, committed.1))
    × (commit (pos 10) (pos 0) released.0 released.1 ≡ (released.0, released.1, false))
    × (release released.0 released.1 ≡ (released.0, released.1))
close_once_example = close_once (pos 250) (pos 50) (pos 10) (pos 0) in_use handed_out

commit_outcome_example :
    (committed.0.reserved_bytes ≡ pos (300 - 300))
    × ((committed.2 ≡ true) ↔ ((250 ≤ 300) × (50 ≤ 200)))
    × (committed.0.committed_bytes
        ≡ pos (
            if not committed.2
            then 200
            else if leb (200 - 50 + 250) max_int64
            then 200 - 50 + 250
            else max_int64))
commit_outcome_example =
    commit_outcome 200 300 300 250 50 in_use refl refl (omega arith) (omega arith) (omega arith)
      (omega arith) (omega arith)

snapshot_watermarks_example :
    ((snapshot in_use).low_bytes ≡ pos (1000 * 6000 / 10000))
    × ((snapshot in_use).high_bytes ≡ pos (1000 * 8000 / 10000))
    × (1000 * 6000 / 10000 ≤ 1000 * 8000 / 10000)
    × (1000 * 8000 / 10000 ≤ 1000)
    × (((snapshot in_use).pressure ≡ true) ↔ ((0 < 1000) × (1000 * 8000 / 10000 ≤ 200 + 300)))
snapshot_watermarks_example =
    snapshot_watermarks 1000 6000 8000 200 300 in_use refl refl refl refl refl (omega arith)
      (omega arith) (omega arith) (omega arith) (omega arith)
