-- ===== src/Cache/Commit.antt =====
-- internal/cache/store.go: the last critical section of PutStreamVerified, which makes a finished
-- body and its metadata visible.
use n0ding.Prelude.{
  ℤ, pos, ◌+ℤ◌, ◌-ℤ◌, int64, Bool, true, false, not, ◌&&◌, Option, none, some, is_some,
  if◌then◌else◌,
}
use n0ding.Storage
use n0ding.Storage.{Controller, Reservation}
use n0ding.Cache.Files.{FilePath, File, Files, Op, read, write, erase, eq_path}
use n0ding.Cache.Naming.{
  Metadata, Platform, Reading, missing, broken, found, read_metadata, body_path_for_entry,
}
use n0ding.Cache.Store.{Store, size, Removal, removed, absent, refused, remove_file}
use n0ding.Cache.Sweep.{whole_body}

-- The store, the controller it may share and the reservation of this call.
pub record Session : Type 0 where
  pub store : Store
  pub controller : Option Controller
  pub reservation : Option Reservation

-- `_ = os.Remove(path)`
abbrev ignoring : Files → Removal → Files
ignoring files (removed files') = files'
ignoring files absent = files
ignoring files refused = files

unfoldable pub try_remove : Platform → FilePath → Files → Files
try_remove platform path files = ignoring files (remove_file platform path files)

-- os.Rename of a file: `none` where it fails.
abbrev rename_found : Platform → Op → FilePath → FilePath → Files → Option File → Option Files
rename_found platform op from to files none = none
rename_found platform op from to files (some f) =
    if platform.fails op from then none else some (write to f (erase from files))

unfoldable pub rename : Platform → Op → FilePath → FilePath → Files → Option Files
rename platform op from to files = rename_found platform op from to files (read from files)

-- The result of `replace`: the files, and whether there is an error.
abbrev second_rename : Platform → FilePath → FilePath → Files → Option Files → Files × Bool
second_rename platform from to files (some files') = (files', false)
second_rename platform from to files none = (files, true)

abbrev clear_target : Platform → FilePath → FilePath → Files → Removal → Files × Bool
clear_target platform from to files (removed files') =
    second_rename platform from to files' (rename platform Op.rename_again from to files')
clear_target platform from to files absent = (files, true)
clear_target platform from to files refused = (files, true)

abbrev is_statable : Platform → FilePath → Files → Bool
is_statable platform path files = is_some (read path files) && not (platform.fails Op.stat path)

abbrev first_rename : Platform → FilePath → FilePath → Files → Option Files → Files × Bool
first_rename platform from to files (some files') = (files', false)
first_rename platform from to files none =
    if is_statable platform to files
    then clear_target platform from to files (remove_file platform to files)
    else second_rename platform from to files (rename platform Op.rename_again from to files)

unfoldable pub replace : Platform → FilePath → FilePath → Files → Files × Bool
replace platform from to files =
    first_rename platform from to files (rename platform Op.rename from to files)

-- What the entry held before: its body path, its size and whether it was complete.
pub record Previous : Type 0 where
  pub body_path : Option FilePath
  pub bytes : ℤ
  pub valid : Bool

abbrev nothing_before : Option FilePath → Previous
nothing_before path = record { body_path = path; bytes = pos 0; valid = false }

abbrev previous_body : Option FilePath → Option File → Previous
previous_body path none = nothing_before path
previous_body path (some file) = record { body_path = path; bytes = size file; valid = true }

abbrev previous_path : Platform → Metadata → Files → Option FilePath → Previous
previous_path platform m files none = nothing_before none
previous_path platform m files (some path) =
    previous_body (some path) (whole_body platform m path (read path files))

abbrev previous_read : Platform → FilePath → FilePath → Files → Reading → Previous
previous_read platform legacy meta files missing = nothing_before none
previous_read platform legacy meta files broken = nothing_before none
previous_read platform legacy meta files (found m) =
    previous_path platform m files (body_path_for_entry meta legacy m)

unfoldable pub previous : Platform → FilePath → FilePath → Files → Previous
previous platform legacy meta files =
    previous_read platform legacy meta files (read_metadata platform files meta)

-- The paths of one PutStreamVerified.
pub record Places : Type 0 where
  pub legacy : FilePath
  pub metadata_path : FilePath
  pub body_temp : FilePath
  pub metadata_temp : FilePath
  pub generation : FilePath

pub data Put : Type 0 where
  stored bypassed failed : Put

abbrev drop_previous : Platform → FilePath → Option FilePath → Files → Files
drop_previous platform generation none files = files
drop_previous platform generation (some path) files =
    if eq_path path generation then files else try_remove platform path files

-- s.bytes, s.objects, and the body that is replaced.
abbrev count_entry : Platform → Places → Previous → ℤ → Session → Session
count_entry platform p before written s = record s {
  store = record s.store {
    bytes = int64 (s.store.bytes +ℤ int64 (written -ℤ before.bytes));
    objects = if before.valid then s.store.objects else int64 (s.store.objects +ℤ pos 1);
    files = drop_previous platform p.generation before.body_path s.store.files;
  };
}

-- reservation.Commit, if there is a reservation: the session and whether to go on.
abbrev commit_reservation :
    ℤ → ℤ → Session → Option Controller → Option Reservation → Session × Bool
commit_reservation written replaced s (some c) (some r) =
    let (c', r', done) = Storage.commit written replaced c r in
    (record s { controller = some c'; reservation = some r' }, done)
commit_reservation written replaced s none r = (s, true)
commit_reservation written replaced s (some c) none = (s, true)

abbrev with_files : Session → Files → Session
with_files s files = record s { store = record s.store { files = files } }

abbrev after_reservation : Platform → Places → Previous → ℤ → Session × Bool → Session × Put
after_reservation platform p before written (s, true) =
    (count_entry platform p before written s, stored)
after_reservation platform p before written (s, false) =
    (with_files s (try_remove platform p.generation s.store.files), failed)

abbrev after_replace : Platform → Places → Previous → ℤ → Session → Files × Bool → Session × Put
after_replace platform p before written s (files, true) =
    (with_files s (try_remove platform p.generation files), failed)
after_replace platform p before written s (files, false) =
    after_reservation platform p before written
      (commit_reservation written before.bytes (with_files s files) s.controller s.reservation)

-- os.Chtimes on the generation.
abbrev set_time : ℤ → Option File → FilePath → Files → Files
set_time t none path files = files
set_time t (some f) path files = write path (record f { mod_time = t }) files

abbrev after_rename : Platform → Places → Previous → ℤ → ℤ → Session → Option Files → Session × Put
after_rename platform p before written stored_at s none = (s, failed)
after_rename platform p before written stored_at s (some files) =
    if platform.fails Op.chtimes p.generation
    then (with_files s (try_remove platform p.generation files), failed)
    else after_replace platform p before written s (
        replace platform p.metadata_temp p.metadata_path
          (set_time stored_at (read p.generation files) p.generation files))

-- From the lock to the return.
unfoldable pub commit_entry : Platform → Places → ℤ → ℤ → Session → Session × Put
commit_entry platform p written stored_at s =
    after_rename platform p (previous platform p.legacy p.metadata_path s.store.files) written
      stored_at s (rename platform Op.rename p.body_temp p.generation s.store.files)
