-- ===== src/Cache/Store.antt =====
-- internal/cache/store.go: the state of a Store and the operations on one entry. The mutex makes each
-- operation one step. Times are nanoseconds; a Duration is one too.
use n0ding.Prelude.{
  ℕ, ℤ, pos, ◌-ℤ◌, int64, leb_ℤ, Bool, false, not, ◌&&◌, Option, none, some, List, Text,
  if◌then◌else◌, length,
}
use n0ding.Cache.Files.{FilePath, File, Files, Op, read, write, erase, eq_path}
use n0ding.Cache.Naming.{
  Metadata, Platform, Reading, missing, broken, found, read_metadata, paths, body_path_for_metadata,
  body_path_for_entry,
}

pub record Store : Type 0 where
  pub root : Text
  pub files : Files
  pub now : ℤ
  pub bytes : ℤ
  pub objects : ℤ
  pub active_temps : List FilePath

pub record Entry : Type 0 where
  pub metadata : Metadata
  pub body_path : FilePath
  pub body : List ℕ

pub data Outcome : Type 0 where
  miss failed : Outcome
  hit : Entry → Outcome

-- int64(len(content)), as FileInfo.Size() gives it.
abbrev pub size : File → ℤ
size f = pos (length f.content)

abbrev pub eq_ℤ : ℤ → ℤ → Bool
eq_ℤ a b = leb_ℤ a b && leb_ℤ b a

-- The access hint; a failure is ignored.
abbrev touch : Platform → FilePath → File → Store → Store
touch platform path file s =
    if platform.fails Op.chtimes path
    then s
    else record s { files = write path (record file { mod_time = s.now }) s.files }

abbrev open_body : Platform → Metadata → FilePath → File → Store → Store × Outcome
open_body platform m path file s =
    if platform.fails Op.stat path
    then (s, failed)
    else if not (eq_ℤ (size file) m.content_bytes)
    then (s, failed)
    else if platform.fails Op.open_file path
    then (s, failed)
    else (
      touch platform path file s,
      hit (record { metadata = m; body_path = path; body = file.content }),
    )

abbrev find_body : Platform → Metadata → FilePath → Option File → Store → Store × Outcome
find_body platform m path none s = (s, miss)
find_body platform m path (some file) s = open_body platform m path file s

abbrev resolve_body : Platform → Metadata → Option FilePath → Store → Store × Outcome
resolve_body platform m none s = (s, failed)
resolve_body platform m (some path) s = find_body platform m path (read path s.files) s

abbrev check_age : Platform → ℤ → FilePath → FilePath → Reading → Store → Store × Outcome
check_age platform ttl legacy meta missing s = (s, miss)
check_age platform ttl legacy meta broken s = (s, failed)
check_age platform ttl legacy meta (found m) s =
    if leb_ℤ ttl (s.now -ℤ m.stored_at)
    then (s, miss)
    else resolve_body platform m (body_path_for_entry meta legacy m) s

unfoldable pub lookup : Platform → Text → ℤ → Store → Store × Outcome
lookup platform key ttl s =
    let (legacy, meta) = paths platform s.root key in
    check_age platform ttl legacy meta (read_metadata platform s.files meta) s

-- A snapshot of a complete entry for pressure collection.
pub record Candidate : Type 0 where
  pub metadata_path : FilePath
  pub body_path : FilePath
  pub bytes : ℤ
  pub last_used : ℤ

-- os.Remove of a file that is there, or may not be: the new files and whether the call failed, and
-- whether because the file does not exist.
pub data Removal : Type 0 where
  removed : Files → Removal
  absent refused : Removal

abbrev remove_found : Platform → FilePath → Files → Option File → Removal
remove_found platform path files none = absent
remove_found platform path files (some f) =
    if platform.fails Op.remove path then refused else removed (erase path files)

unfoldable pub remove_file : Platform → FilePath → Files → Removal
remove_file platform path files = remove_found platform path files (read path files)

-- The result of RemoveCandidate: false or true, with no error or with one.
pub data Removed : Type 0 where
  kept gone kept_error gone_error : Removed

abbrev pub drop_metadata : FilePath → Store → Removal → Store × Removed
drop_metadata path s (removed files) = (record s { files = files }, gone)
drop_metadata path s absent = (s, gone_error)
drop_metadata path s refused = (s, gone_error)

abbrev pub drop_body : Platform → Candidate → Store → Removal → Store × Removed
drop_body platform c s absent = (s, kept)
drop_body platform c s refused = (s, kept_error)
drop_body platform c s (removed files) =
    drop_metadata c.metadata_path
      (record s {
        files = files;
        bytes = int64 (s.bytes -ℤ c.bytes);
        objects = int64 (s.objects -ℤ pos 1);
      })
      (remove_file platform c.metadata_path files)

-- The metadata still names the generation that Candidates saw.
abbrev pub is_same_generation : Candidate → Metadata → Option FilePath → Bool
is_same_generation c m none = false
is_same_generation c m (some path) = eq_path path c.body_path && eq_ℤ m.content_bytes c.bytes

-- os.Remove(bodyPath), for the path that the metadata gives.
abbrev pub drop_resolved : Platform → Candidate → Store → Option FilePath → Store × Removed
drop_resolved platform c s none = (s, kept)
drop_resolved platform c s (some path) = drop_body platform c s (remove_file platform path s.files)

abbrev pub check_generation : Platform → Candidate → FilePath → Store → Reading → Store × Removed
check_generation platform c legacy s missing = (s, kept)
check_generation platform c legacy s broken = (s, kept_error)
check_generation platform c legacy s (found m) =
    let path = body_path_for_entry c.metadata_path legacy m in
    if is_same_generation c m path then drop_resolved platform c s path else (s, kept)

abbrev pub check_name : Platform → Candidate → Store → Option FilePath → Store × Removed
check_name platform c s none = (s, kept)
check_name platform c s (some legacy) =
    check_generation platform c legacy s (read_metadata platform s.files c.metadata_path)

unfoldable pub remove_candidate : Platform → Candidate → Store → Store × Removed
remove_candidate platform c s = check_name platform c s (body_path_for_metadata c.metadata_path)
