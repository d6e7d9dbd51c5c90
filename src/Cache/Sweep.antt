-- ===== src/Cache/Sweep.antt =====
-- internal/cache/store.go: the operations that walk the cache directory. WalkDir is a walk over the
-- list of files; it stops where the callback gives an error, which is where the walk itself fails.
use n0ding.Prelude.{
  ℤ, pos, negsuc, ◌+ℤ◌, ◌-ℤ◌, int64, leb_ℤ, ltb_ℤ, Bool, true, false, not, ◌||◌, Option, none, some,
  List, [], ◌∷◌, if◌then◌else◌,
}
use n0ding.Cache.Files.{FilePath, File, Files, Op, read, eq_path}
use n0ding.Cache.Naming.{
  Metadata, Platform, Reading, missing, broken, found, read_metadata, body_path_for_metadata,
  body_path_for_entry, is_temp_name,
}
use n0ding.Cache.Store.{
  Store, Candidate, size, eq_ℤ, Removal, removed, absent, refused, remove_file,
}

-- The year 1, in nanoseconds from 1970: the zero time.
abbrev pub zero_time : ℤ
zero_time = negsuc 62135596799999999999

abbrev pub is_zero : ℤ → Bool
is_zero t = eq_ℤ t zero_time

-- The body of an entry, if it is there, regular and as long as the metadata says.
abbrev pub whole_body : Platform → Metadata → FilePath → Option File → Option File
whole_body platform m path none = none
whole_body platform m path (some file) =
    if platform.fails Op.stat path
    then none
    else if not file.regular || not (eq_ℤ (size file) m.content_bytes)
    then none
    else some file

pub record Complete : Type 0 where
  pub metadata : Metadata
  pub body_path : FilePath
  pub file : File

abbrev with_body : Metadata → FilePath → Option File → Option Complete
with_body m path none = none
with_body m path (some file) = some (record { metadata = m; body_path = path; file = file })

abbrev from_body_path : Platform → Files → Metadata → Option FilePath → Option Complete
from_body_path platform files m none = none
from_body_path platform files m (some path) =
    with_body m path (whole_body platform m path (read path files))

abbrev from_reading : Platform → Files → FilePath → FilePath → Reading → Option Complete
from_reading platform files path legacy missing = none
from_reading platform files path legacy broken = none
from_reading platform files path legacy (found m) =
    from_body_path platform files m (body_path_for_entry path legacy m)

abbrev from_name : Platform → Files → FilePath → Option FilePath → Option Complete
from_name platform files path none = none
from_name platform files path (some legacy) =
    from_reading platform files path legacy (read_metadata platform files path)

-- The tests that the callbacks of Candidates and Reconcile share: `none` where they skip.
unfoldable pub complete : Platform → Files → FilePath → Option Complete
complete platform files path = from_name platform files path (body_path_for_metadata path)

-- What a walk gives: its result so far, and whether it ended in an error.
pub record Walk (A : Type 0) : Type 0 where
  pub result : A
  pub error : Bool

abbrev last_used : Complete → ℤ
last_used c = if is_zero c.file.mod_time then c.metadata.stored_at else c.file.mod_time

abbrev add_candidate : FilePath → Option Complete → List Candidate → List Candidate
add_candidate path none cs = cs
add_candidate path (some c) cs =
    record {
      metadata_path = path;
      body_path = c.body_path;
      bytes = size c.file;
      last_used = last_used c;
    }
    ∷ cs

-- The entries before the place where the walk fails, in the order of the walk.
unfoldable pub collect_candidates : Platform → Files → Files → Walk (List Candidate)
collect_candidates platform files [] = record { result = []; error = false }
collect_candidates platform files ((path, file) ∷ rest) =
    let w = collect_candidates platform files rest in
    if platform.fails Op.walk path then record { result = []; error = true } else record {
      result = add_candidate path (complete platform files path) w.result;
      error = w.error;
    }

-- sort.Slice by LastUsed.
unfoldable pub insert_candidate : Candidate → List Candidate → List Candidate
insert_candidate c [] = c ∷ []
insert_candidate c (d ∷ ds) =
    if ltb_ℤ d.last_used c.last_used then d ∷ insert_candidate c ds else c ∷ d ∷ ds

unfoldable pub sort_candidates : List Candidate → List Candidate
unfolding insert_candidate
sort_candidates [] = []
sort_candidates (c ∷ cs) = insert_candidate c (sort_candidates cs)

unfoldable pub candidates : Platform → Store → Walk (List Candidate)
unfolding collect_candidates sort_candidates
candidates platform s =
    let w = collect_candidates platform s.files s.files in
    record { result = sort_candidates w.result; error = w.error }

-- The two counters of Reconcile.
pub record Usage : Type 0 where
  pub bytes : ℤ
  pub objects : ℤ

abbrev add_usage : Option Complete → Usage → Usage
add_usage none u = u
add_usage (some c) u = record {
  bytes = int64 (u.bytes +ℤ size c.file);
  objects = int64 (u.objects +ℤ pos 1);
}

unfoldable pub count_usage : Platform → Files → Files → Usage → Walk Usage
count_usage platform files [] u = record { result = u; error = false }
count_usage platform files ((path, file) ∷ rest) u =
    let w = count_usage platform files rest (add_usage (complete platform files path) u) in
    if platform.fails Op.walk path then record { result = u; error = true } else w

unfoldable pub reconcile : Platform → Store → Store × Walk Usage
reconcile platform s =
    let w = count_usage platform s.files s.files (record { bytes = pos 0; objects = pos 0 }) in
    (if w.error then s else record s { bytes = w.result.bytes; objects = w.result.objects }, w)

pub record TempCleanupResult : Type 0 where
  pub files : ℤ
  pub bytes : ℤ

unfoldable pub is_active : FilePath → List FilePath → Bool
is_active p [] = false
is_active p (q ∷ qs) = eq_path p q || is_active p qs

abbrev pub removed_temp :
    File → Store → TempCleanupResult → Removal → Store × Walk TempCleanupResult
removed_temp file s r (removed files) = (
  record s { files = files },
  record {
    result = record { files = int64 (r.files +ℤ pos 1); bytes = int64 (r.bytes +ℤ size file) };
    error = false;
  },
)
removed_temp file s r absent = (s, record { result = r; error = true })
removed_temp file s r refused = (s, record { result = r; error = true })

-- The callback of CleanupStaleTemps for one file.
unfoldable pub cleanup_one :
    Platform → ℤ → FilePath → File → Store → TempCleanupResult → Store × Walk TempCleanupResult
cleanup_one platform cutoff path file s r =
    if not (is_temp_name path.name) || is_active path s.active_temps
    then (s, record { result = r; error = false })
    else if platform.fails Op.info path
    then (s, record { result = r; error = true })
    else if ltb_ℤ cutoff file.mod_time
    then (s, record { result = r; error = false })
    else removed_temp file s r (remove_file platform path s.files)

unfoldable pub cleanup_walk :
    Platform → ℤ → Files → Store → TempCleanupResult → Store × Walk TempCleanupResult
cleanup_walk platform cutoff [] s r = (s, record { result = r; error = false })
cleanup_walk platform cutoff ((path, file) ∷ rest) s r =
    let step = cleanup_one platform cutoff path file s r in
    let more = cleanup_walk platform cutoff rest step.0 step.1.result in
    if platform.fails Op.walk path
    then (s, record { result = r; error = true })
    else if step.1.error
    then step
    else more

-- `none` is the error on an age that is not positive.
unfoldable pub cleanup_stale_temps : Platform → ℤ → Store → Store × Option (Walk TempCleanupResult)
cleanup_stale_temps platform max_age s =
    let (s', w) =
      cleanup_walk platform (s.now -ℤ max_age) s.files s
        (record { files = pos 0; bytes = pos 0 }) in
    if leb_ℤ max_age (pos 0) then (s, none) else (s', some w)
