-- ===== src/Cache/Collect.antt =====
-- internal/cache/store.go: GC, which removes the complete entries that are older than an age.
use n0ding.Prelude.{
  ℤ, pos, ◌+ℤ◌, ◌-ℤ◌, int64, leb_ℤ, ltb_ℤ, Bool, true, false, ◌||◌, Option, none, some, [], ◌∷◌,
  if◌then◌else◌,
}
use n0ding.Cache.Files.{FilePath, File, Files, Op, read}
use n0ding.Cache.Naming.{
  Metadata, Platform, Reading, missing, broken, found, read_metadata, body_path_for_metadata,
  body_path_for_entry,
}
use n0ding.Cache.Store.{Store, size, Removal, removed, absent, refused, remove_file}
use n0ding.Cache.Sweep.{Walk, is_zero, whole_body}

pub record GcResult : Type 0 where
  pub objects : ℤ
  pub bytes : ℤ
  pub skipped : ℤ

abbrev pub skip : GcResult → GcResult
skip r = record r { skipped = int64 (r.skipped +ℤ pos 1) }

-- The metadata file goes last; that it stays is counted.
abbrev after_body : FilePath → Store → GcResult → Removal → Store × GcResult
after_body path s r (removed files) = (record s { files = files }, r)
after_body path s r absent = (s, skip r)
after_body path s r refused = (s, skip r)

abbrev collect_body : Platform → FilePath → File → Store → GcResult → Removal → Store × GcResult
collect_body platform path file s r absent = (s, skip r)
collect_body platform path file s r refused = (s, skip r)
collect_body platform path file s r (removed files) =
    after_body path
      (record s {
        files = files;
        bytes = int64 (s.bytes -ℤ size file);
        objects = int64 (s.objects -ℤ pos 1);
      })
      (record r { objects = int64 (r.objects +ℤ pos 1); bytes = int64 (r.bytes +ℤ size file) })
      (remove_file platform path files)

abbrev collect_whole :
    Platform → FilePath → FilePath → Store → GcResult → Option File → Store × GcResult
collect_whole platform path body s r none = (s, skip r)
collect_whole platform path body s r (some file) =
    collect_body platform path file s r (remove_file platform body s.files)

abbrev collect_path :
    Platform → FilePath → Metadata → Store → GcResult → Option FilePath → Store × GcResult
collect_path platform path m s r none = (s, skip r)
collect_path platform path m s r (some body) =
    collect_whole platform path body s r (whole_body platform m body (read body s.files))

-- StoredAt.IsZero() || StoredAt.After(cutoff)
abbrev pub is_fresh : ℤ → Metadata → Bool
is_fresh cutoff m = is_zero m.stored_at || ltb_ℤ cutoff m.stored_at

abbrev collect_read :
    Platform → ℤ → FilePath → FilePath → Store → GcResult → Reading → Store × GcResult
collect_read platform cutoff path legacy s r missing = (s, skip r)
collect_read platform cutoff path legacy s r broken = (s, skip r)
collect_read platform cutoff path legacy s r (found m) =
    if is_fresh cutoff m
    then (s, r)
    else collect_path platform path m s r (body_path_for_entry path legacy m)

abbrev collect_named :
    Platform → ℤ → FilePath → Store → GcResult → Option FilePath → Store × GcResult
collect_named platform cutoff path s r none = (s, r)
collect_named platform cutoff path s r (some legacy) =
    collect_read platform cutoff path legacy s r (read_metadata platform s.files path)

-- The callback of GC for one file.
unfoldable pub collect_one : Platform → ℤ → FilePath → Store → GcResult → Store × GcResult
collect_one platform cutoff path s r =
    collect_named platform cutoff path s r (body_path_for_metadata path)

-- The walk over the files that were there when it began.
unfoldable pub collect_walk : Platform → ℤ → Files → Store → GcResult → Store × Walk GcResult
collect_walk platform cutoff [] s r = (s, record { result = r; error = false })
collect_walk platform cutoff ((path, file) ∷ rest) s r =
    let step = collect_one platform cutoff path s r in
    let more = collect_walk platform cutoff rest step.0 step.1 in
    if platform.fails Op.walk path then (s, record { result = r; error = true }) else more

abbrev pub no_gc : GcResult
no_gc = record { objects = pos 0; bytes = pos 0; skipped = pos 0 }

-- `none` is the error on an age that is not positive.
unfoldable pub gc : Platform → ℤ → Store → Store × Option (Walk GcResult)
gc platform max_age s =
    let (s', w) = collect_walk platform (s.now -ℤ max_age) s.files s no_gc in
    if leb_ℤ max_age (pos 0) then (s, none) else (s', some w)
