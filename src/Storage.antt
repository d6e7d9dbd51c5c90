-- ===== src/Storage.antt =====
-- internal/storage/controller.go: one cache budget for all repositories. A method of *Controller or
-- *Reservation returns the new records; the mutex makes each of them one step.
pub mod Admit
pub mod Ledger
pub mod Budget
pub mod Trace
pub mod Closing
pub mod Watermarks
mod Tests
use n0ding.Prelude.{
  ℕ, ℤ, pos, negsuc, ◌+ℤ◌, ◌-ℤ◌, ◌*ℤ◌, ◌/ℤ◌, ◌%ℤ◌, min_ℤ, ltb_ℤ, leb_ℤ, int64, max_int64, Bool,
  true, false, ◌&&◌, ◌||◌, Option, none, some, if◌then◌else◌,
}

pub record Controller : Type 0 where
  pub max_bytes : ℤ
  pub high_basis_points : ℤ
  pub low_basis_points : ℤ
  pub min_free_bytes : ℤ
  pub committed_bytes : ℤ
  pub reserved_bytes : ℤ
  pub bypass_objects : ℤ
  pub bypass_bytes : ℤ

-- `done` is the state of the sync.Once.
pub record Reservation : Type 0 where
  pub bytes : ℤ
  pub done : Bool

pub record Snapshot : Type 0 where
  pub max_bytes : ℤ
  pub high_bytes : ℤ
  pub low_bytes : ℤ
  pub min_free_bytes : ℤ
  pub committed_bytes : ℤ
  pub reserved_bytes : ℤ
  pub bypass_objects : ℤ
  pub bypass_bytes : ℤ
  pub pressure : Bool

-- The watermarks are given in basis points, after the rounding of the two floats.
unfoldable pub new_controller : ℤ → ℤ → ℤ → ℤ → ℤ → Controller
new_controller max high low min_free committed = record {
  max_bytes = max;
  high_basis_points = high;
  low_basis_points = low;
  min_free_bytes = min_free;
  committed_bytes = committed;
  reserved_bytes = pos 0;
  bypass_objects = pos 0;
  bypass_bytes = pos 0;
}

unfoldable pub saturating_add : ℤ → ℤ → ℤ
saturating_add left right =
    if ltb_ℤ (pos 0) right && ltb_ℤ (int64 (pos max_int64 -ℤ right)) left
    then pos max_int64
    else int64 (left +ℤ right)

unfoldable pub exceeds_available : ℤ → ℤ → ℤ → Bool
exceeds_available limit used requested =
    ltb_ℤ limit (pos 0) || (ltb_ℤ limit used || ltb_ℤ (int64 (limit -ℤ used)) requested)

unfoldable pub scale_basis_points : ℤ → ℤ → ℤ
scale_basis_points value basis_points =
    int64 (
      int64 ((value /ℤ 10000) *ℤ basis_points) +ℤ int64 ((value %ℤ 10000) *ℤ basis_points) /ℤ 10000)

-- RecordBypass, and the same lines of Reserve
unfoldable pub record_bypass : ℤ → Controller → Controller
record_bypass bytes c = record c {
  bypass_objects = saturating_add c.bypass_objects (pos 1);
  bypass_bytes =
      if ltb_ℤ (pos 0) bytes then saturating_add c.bypass_bytes bytes else c.bypass_bytes;
}

-- The condition under which Reserve refuses.
unfoldable pub must_bypass : ℤ → ℤ → Controller → Bool
must_bypass bytes free c =
    let budget_used = saturating_add c.committed_bytes c.reserved_bytes in
    let available = int64 (free -ℤ min_ℤ c.reserved_bytes free) in
    leb_ℤ bytes (pos 0)
    || ((ltb_ℤ (pos 0) c.max_bytes && exceeds_available c.max_bytes budget_used bytes)
        || (ltb_ℤ (pos 0) c.min_free_bytes && exceeds_available available c.min_free_bytes bytes))

unfoldable pub reserve : ℤ → ℤ → Controller → Controller × Option Reservation
reserve bytes free c = if must_bypass bytes free c then (record_bypass bytes c, none) else (
  record c { reserved_bytes = saturating_add c.reserved_bytes bytes },
  some (record { bytes = bytes; done = false }),
)

-- The test of Commit on the two sizes.
unfoldable pub commit_fits : ℤ → ℤ → ℤ → ℤ → Bool
commit_fits reserved committed actual replaced =
    leb_ℤ (pos 0) actual
    && (leb_ℤ actual reserved && (leb_ℤ (pos 0) replaced && leb_ℤ replaced committed))

unfoldable pub commit : ℤ → ℤ → Controller → Reservation → Controller × Reservation × Bool
commit actual replaced c r =
    let freed = int64 (c.reserved_bytes -ℤ r.bytes) in
    if r.done
    then (c, r, false)
    else if commit_fits r.bytes c.committed_bytes actual replaced
    then (
      record c {
        reserved_bytes = freed;
        committed_bytes = saturating_add (int64 (c.committed_bytes -ℤ replaced)) actual;
      },
      record r { done = true },
      true,
    )
    else (record c { reserved_bytes = freed }, record r { done = true }, false)

unfoldable pub release : Controller → Reservation → Controller × Reservation
release c r = if r.done then (c, r) else (
  record c { reserved_bytes = int64 (c.reserved_bytes -ℤ r.bytes) },
  record r { done = true },
)

unfoldable pub remove : ℤ → Controller → Controller
remove bytes c =
    let left = int64 (c.committed_bytes -ℤ bytes) in
    if leb_ℤ bytes (pos 0)
    then c
    else record c { committed_bytes = if ltb_ℤ left (pos 0) then pos 0 else left }

unfoldable pub snapshot : Controller → Snapshot
snapshot c =
    let high = scale_basis_points c.max_bytes c.high_basis_points in
    record {
      max_bytes = c.max_bytes;
      high_bytes = high;
      low_bytes = scale_basis_points c.max_bytes c.low_basis_points;
      min_free_bytes = c.min_free_bytes;
      committed_bytes = c.committed_bytes;
      reserved_bytes = c.reserved_bytes;
      bypass_objects = c.bypass_objects;
      bypass_bytes = c.bypass_bytes;
      pressure =
          ltb_ℤ (pos 0) c.max_bytes
          && leb_ℤ high (saturating_add c.committed_bytes c.reserved_bytes);
    }
