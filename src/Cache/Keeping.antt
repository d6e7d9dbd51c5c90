-- ===== src/Cache/Keeping.antt =====
-- internal/cache/store.go: what removals and the clean-up leave as it was.
use n0ding.Prelude.{
  ℤ, pos, Bool, true, false, not, ◌||◌, [], ◌∷◌, leb_ℤ, ltb_ℤ, ◌≡◌, refl, ap, ◌∙◌, ◌⊎◌, inl, inr,
  Bool-cases, Option-cases,
}
use n0ding.Cache.Files.{FilePath, File, Files, Op, eq_path, eq_path_iff, read, erase, read-erase}
use n0ding.Cache.Naming.{Platform, is_temp_name}
use n0ding.Cache.Store.{Store, removed, absent, refused, remove_file}
use n0ding.Cache.Sweep.{
  TempCleanupResult, is_active, removed_temp, cleanup_one, cleanup_walk, cleanup_stale_temps,
}

-- A removal, if it is one, erases the path.
pub remove_file-cases :
    (platform : Platform) (path : FilePath) (files : Files)
    → (remove_file platform path files ≡ removed (erase path files))
      ⊎ ((remove_file platform path files ≡ absent) ⊎ (remove_file platform path files ≡ refused))
unfolding remove_file
remove_file-cases platform path files = elim (Option-cases (read path files)) [
  | inl e ↦ inr (inl (rw e refl))
  | inr (f, e) ↦ elim (Bool-cases (platform.fails Op.remove path)) [
    | inl bad ↦ inr (inr (rw (e, bad) refl))
    | inr good ↦ inl (rw (e, good) refl)
  ]
]

-- The store is the same but for files of which `p` is none.
record IsKept (p : FilePath) (s t : Store) : Type 0 where
  same_file : read p t.files ≡ read p s.files
  same_bytes : t.bytes ≡ s.bytes
  same_objects : t.objects ≡ s.objects
  same_temps : t.active_temps ≡ s.active_temps

IsKept-refl : (p : FilePath) (s : Store) → IsKept p s s
IsKept-refl p s = record {
  same_file = refl;
  same_bytes = refl;
  same_objects = refl;
  same_temps = refl;
}

IsKept-trans : (p : FilePath) (s t u : Store) → IsKept p s t → IsKept p t u → IsKept p s u
IsKept-trans p s t u h k = record {
  same_file = k.same_file ∙ h.same_file;
  same_bytes = k.same_bytes ∙ h.same_bytes;
  same_objects = k.same_objects ∙ h.same_objects;
  same_temps = k.same_temps ∙ h.same_temps;
}

-- The path of an entry, or of a temporary file in use.
abbrev pub is_protected : FilePath → Store → Bool
is_protected p s = not (is_temp_name p.name) || is_active p s.active_temps

removed_temp-IsKept :
    (platform : Platform) (p path : FilePath) (file : File) (s : Store) (r : TempCleanupResult)
    → eq_path path p ≡ false
    → IsKept p s (removed_temp file s r (remove_file platform path s.files)).0
removed_temp-IsKept platform p path file s r other =
    elim (remove_file-cases platform path s.files) [
      | inl e ↦ rw e (record {
        same_file = read-erase path p s.files ∙ rw other refl;
        same_bytes = refl;
        same_objects = refl;
        same_temps = refl;
      })
      | inr (inl e) ↦ rw e (IsKept-refl p s)
      | inr (inr e) ↦ rw e (IsKept-refl p s)
    ]

-- A path that may be removed is not a protected one.
other_path :
    (p path : FilePath) (s : Store)
    → is_protected p s ≡ true
    → is_protected path s ≡ false
    → eq_path path p ≡ false
other_path p path s safe unsafe = elim (Bool-cases (eq_path path p)) [
  | inl e ↦
      absurd (cc (safe, unsafe, ap (λ (q : FilePath). is_protected q s) ((eq_path_iff path p).0 e)))
  | inr e ↦ e
]

cleanup_one-IsKept :
    (platform : Platform) (cutoff : ℤ) (p path : FilePath) (file : File) (s : Store)
    (r : TempCleanupResult)
    → is_protected p s ≡ true
    → IsKept p s (cleanup_one platform cutoff path file s r).0
unfolding cleanup_one
cleanup_one-IsKept platform cutoff p path file s r safe = elim (Bool-cases (is_protected path s)) [
  | inl skipped ↦ rw skipped (IsKept-refl p s)
  | inr unsafe ↦
      (let other : eq_path path p ≡ false = other_path p path s safe unsafe in
        elim (Bool-cases (platform.fails Op.info path)) [
          | inl bad ↦ rw (unsafe, bad) (IsKept-refl p s)
          | inr good ↦ elim (Bool-cases (ltb_ℤ cutoff file.mod_time)) [
            | inl young ↦ rw (unsafe, good, young) (IsKept-refl p s)
            | inr old ↦ rw (unsafe, good, old) (removed_temp-IsKept platform p path file s r other)
          ]
        ])
]

cleanup_walk-IsKept :
    (platform : Platform) (cutoff : ℤ) (p : FilePath) (files : Files) (s : Store)
    (r : TempCleanupResult)
    → is_protected p s ≡ true
    → IsKept p s (cleanup_walk platform cutoff files s r).0
unfolding cleanup_walk
cleanup_walk-IsKept platform cutoff p [] s r safe = IsKept-refl p s
cleanup_walk-IsKept platform cutoff p ((path, file) ∷ rest) s r safe =
    let step = cleanup_one platform cutoff path file s r in
    let once = cleanup_one-IsKept platform cutoff p path file s r safe in
    elim (Bool-cases (platform.fails Op.walk path)) [
      | inl bad ↦ rw bad (IsKept-refl p s)
      | inr good ↦ elim (Bool-cases step.1.error) [
        | inl e ↦ rw (good, e) once
        | inr e ↦
            rw (good, e)
              (IsKept-trans p s step.0 _ once (
                cleanup_walk-IsKept platform cutoff p rest step.0 step.1.result
                  (rw once.same_temps safe)))
      ]
    ]

-- Whatever fails on the way, CleanupStaleTemps keeps every file whose name is no temporary one or that
-- a put has in use, both counters and the set of temporary files in use.
pub cleanup_keeps_entries :
    (platform : Platform) (max_age : ℤ) (p : FilePath) (s : Store)
    → is_protected p s ≡ true
    → (read p (cleanup_stale_temps platform max_age s).0.files ≡ read p s.files)
      × ((cleanup_stale_temps platform max_age s).0.bytes ≡ s.bytes)
      × ((cleanup_stale_temps platform max_age s).0.objects ≡ s.objects)
      × ((cleanup_stale_temps platform max_age s).0.active_temps ≡ s.active_temps)
unfolding cleanup_stale_temps
cleanup_keeps_entries platform max_age p s safe = elim (Bool-cases (leb_ℤ max_age (pos 0))) [
  | inl bad ↦ rw bad (refl, refl, refl, refl)
  | inr good ↦
      (let k = cleanup_walk-IsKept platform _ p s.files s _ safe in
        rw good (k.same_file, k.same_bytes, k.same_objects, k.same_temps))
]
