-- ===== src/Pypi/Uploads.antt =====
-- internal/pypiproxy/proxy.go: an upload is stored whole or not at all, and replaces no release.
use n0ding.Prelude.{
  true, false, not, ◌||◌, none, some, [], ◌∷◌, ◌++◌, Text, codes, eq_text, eq_text_iff, has_prefix,
  ◌≡◌, refl, sym, ap, ◌∙◌, ◌⊎◌, inl, inr, arith, Bool-cases, Option-cases,
}
use n0ding.Cache.Files.{FilePath, File, Files, Op, eq_path, read, write}
use n0ding.Pypi.Names.{normalize_project_name, safe_distribution_filename}
use n0ding.Pypi.Disk.{
  LocalPackage, Disk, cached, chmod, Upload, Stored, existing, refused, new_file, Places, places,
  package_of, fill_temp, store_at, store_local_package,
}
use n0ding.Pypi.Linking.{
  Keeps, IsStored, IsUploaded, write_elsewhere, write_there, discarded-IsUploaded,
  link_temp-IsUploaded, IsUploaded-before,
}

-- An external writer adds files, and neither changes nor removes one.
abbrev pub IsAdding : (Files → Files) → Type 0
IsAdding others =
    (g : Files) (x : FilePath) (f : File) → read x g ≡ some f → read x (others g) ≡ some f

module _ (disk : Disk) (p : Places) (pkg : LocalPackage) (upload : Upload)
    (temp_apart : eq_path p.temp p.target ≡ false)
    (description_apart : eq_path p.description p.target ≡ false)
    (adding : IsAdding disk.others) where
  fill_temp-IsUploaded :
      (g : Files)
      → read p.target g ≡ none
      → IsUploaded disk p pkg upload.content g (fill_temp disk p pkg upload g)
  fill_temp-IsUploaded g free =
      let begun = write p.temp (new_file disk upload.content) g in
      let keeps : Keeps p g begun = (λ x f t d e. write_elsewhere p.temp x _ g t ∙ e) in
      let before =
        IsUploaded-before disk p pkg upload.content temp_apart description_apart g begun in
      let discarded = before _ free keeps (
        discarded-IsUploaded disk p pkg upload.content temp_apart description_apart begun refused
          tt) in
      elim (Bool-cases upload.fails) [
        | inl e ↦ rw e discarded
        | inr e ↦
            elim (Bool-cases
              (disk.fails (cached Op.sync) p.temp || disk.fails (cached Op.close_file) p.temp)) [
                | inl e' ↦ rw (e, e') discarded
                | inr e' ↦ elim (Bool-cases (disk.fails chmod p.temp)) [
                  | inl e'' ↦ rw (e, e', e'') discarded
                  | inr e'' ↦
                      rw (e, e', e'')
                        (IsUploaded-before disk p pkg upload.content temp_apart description_apart g
                          (disk.others begun) _ free
                          (λ x f t d r. adding begun x f (keeps x f t d r))
                          (link_temp-IsUploaded disk p pkg upload.content temp_apart
                            description_apart (disk.others begun)
                            (adding begun p.temp _ (write_there p.temp _ g))))
                ]
              ]
      ]

  untouched-IsUploaded :
      (g : Files) (r : Stored)
      → IsStored disk p pkg upload.content g (g, r)
      → IsUploaded disk p pkg upload.content g (g, r)
  untouched-IsUploaded g r whole = record { keeps = λ x f t d e. e; whole = whole }

  store_at-IsUploaded :
      (g : Files) → IsUploaded disk p pkg upload.content g (store_at disk p pkg upload g)
  store_at-IsUploaded g = elim (Bool-cases (disk.fails (cached Op.mkdir) p.target)) [
    | inl e ↦ rw e (untouched-IsUploaded g refused tt)
    | inr e ↦ elim (Bool-cases (disk.fails (cached Op.stat) p.target)) [
      | inl e' ↦ rw (e, e') (untouched-IsUploaded g refused tt)
      | inr e' ↦ elim (Option-cases (read p.target g)) [
        | inr (f, there) ↦ rw (e, e', there) (untouched-IsUploaded g existing tt)
        | inl free ↦ elim (Bool-cases (disk.fails (cached Op.create) p.temp)) [
          | inl e'' ↦ rw (e, e', free, e'') (untouched-IsUploaded g refused tt)
          | inr e'' ↦ rw (e, e', free, e'') (fill_temp-IsUploaded g free)
        ]
      ]
    ]
  ]

safe_unhidden : (s : Text) → safe_distribution_filename s ≡ true → has_prefix s (codes ".") ≡ false
unfolding safe_distribution_filename
safe_unhidden s h = ground (arith, h)

-- The temporary name begins with a dot, which no safe filename does.
temp_differs :
    (suffix s : Text)
    → safe_distribution_filename s ≡ true
    → eq_text (codes ".upload-" ++ suffix) s ≡ false
unfolding has_prefix
temp_differs suffix s h = elim (Bool-cases (eq_text (codes ".upload-" ++ suffix) s)) [
  | inr e ↦ e
  | inl e ↦
      absurd
        (cc ((ap (λ t. has_prefix t (codes ".")) ((eq_text_iff _ s).0 e)), (safe_unhidden s h)))
]

longer_differs : (s : Text) → eq_text (s ++ codes ".json") s ≡ false
unfolding eq_text
longer_differs [] = refl
longer_differs (c ∷ s) = ground (arith, longer_differs s)

store_local_package-IsUploaded :
    (disk : Disk) (local_path project filename requires_python : Text) (upload : Upload) (g : Files)
    → IsAdding disk.others
    → IsUploaded disk
        (places disk local_path project filename)
        (package_of disk filename requires_python upload)
        upload.content
        g
        (store_local_package disk local_path project filename requires_python upload g)
unfolding store_local_package eq_path
store_local_package-IsUploaded disk local_path project filename requires_python upload g adding =
    let p = places disk local_path project filename in
    let pkg = package_of disk filename requires_python upload in
    elim (Bool-cases (
      eq_text project []
      || (not (eq_text (normalize_project_name project) project)
          || not (safe_distribution_filename filename)))) [
            | inl e ↦ rw e (record { keeps = λ x f t d r. r; whole = tt })
            | inr e ↦
                let safe : safe_distribution_filename filename ≡ true = ground (arith, e) in
                rw e (
                  store_at-IsUploaded disk p pkg upload
                    (ground (arith, temp_differs disk.suffix filename safe))
                    (ground (arith, longer_differs filename)) adding g)
          ]

-- storeLocalPackage leaves everything as it is where the target is there already.
store_at_there :
    (disk : Disk) (p : Places) (pkg : LocalPackage) (upload : Upload) (g : Files) (f : File)
    → read p.target g ≡ some f
    → (store_at disk p pkg upload g).0 ≡ g
store_at_there disk p pkg upload g f there =
    elim (Bool-cases (disk.fails (cached Op.mkdir) p.target)) [
      | inl e ↦ rw e refl
      | inr e ↦ elim (Bool-cases (disk.fails (cached Op.stat) p.target)) [
        | inl e' ↦ rw (e, e') refl
        | inr e' ↦ rw (e, e', there) refl
      ]
    ]

store_local_package_there :
    (disk : Disk) (local_path project filename requires_python : Text) (upload : Upload) (g : Files)
    (f : File)
    → read (places disk local_path project filename).target g ≡ some f
    → (store_local_package disk local_path project filename requires_python upload g).0 ≡ g
unfolding store_local_package
store_local_package_there disk local_path project filename requires_python upload g f there =
    elim (Bool-cases (
      eq_text project []
      || (not (eq_text (normalize_project_name project) project)
          || not (safe_distribution_filename filename)))) [
            | inl e ↦ rw e refl
            | inr e ↦ rw e (
                store_at_there disk (places disk local_path project filename)
                  (package_of disk filename requires_python upload) upload g f there)
          ]

-- What an upload does to a file that it finds: the file is kept, or it is the temporary one, or the
-- description of a release that there is not.
abbrev pub IsKept : Places → Files → Files → FilePath → Type 0
IsKept p g g' x =
    (eq_path p.temp x ≡ true)
    ⊎ ((eq_path p.description x ≡ true) × (read p.target g ≡ none))
    ⊎ (read x g ≡ none)
    ⊎ (read x g' ≡ read x g)

Keeps-IsKept :
    (p : Places) (g g' : Files) (x : FilePath)
    → Keeps p g g'
    → (read p.target g ≡ none) ⊎ (g' ≡ g)
    → IsKept p g g' x
Keeps-IsKept p g g' x keeps (inr same) = inr (inr (inr (rw same refl)))
Keeps-IsKept p g g' x keeps (inl free) = elim (Bool-cases (eq_path p.temp x)) [
  | inl t ↦ inl t
  | inr t ↦ elim (Bool-cases (eq_path p.description x)) [
    | inl d ↦ inr (inl (d, free))
    | inr d ↦ elim (Option-cases (read x g)) [
      | inl e ↦ inr (inr (inl e))
      | inr (f, e) ↦ inr (inr (inr (keeps x f t d e ∙ sym e)))
    ]
  ]
]

-- Let external writers only add files. Whatever calls fail, storeLocalPackage keeps every file that it
-- finds but the temporary one and the description of a release that is not there: no release is
-- replaced, and none that is there loses its description. If it succeeds, be it on an index without
-- files, then there was no such release before, its file is what was uploaded, and its description is
-- the one returned, with the size and the sum of the upload.
pub uploads_keep_releases :
    (disk : Disk) (local_path project filename requires_python : Text) (upload : Upload) (g : Files)
    (x : FilePath)
    → IsAdding disk.others
    → IsKept
        (places disk local_path project filename)
        g
        (store_local_package disk local_path project filename requires_python upload g).0
        x
      × IsStored disk
          (places disk local_path project filename)
          (package_of disk filename requires_python upload)
          upload.content
          g
          (store_local_package disk local_path project filename requires_python upload g)
uploads_keep_releases disk local_path project filename requires_python upload g x adding =
    let u =
      store_local_package-IsUploaded disk local_path project filename requires_python upload g
        adding in
    let p = places disk local_path project filename in
    (
      Keeps-IsKept p g
          (store_local_package disk local_path project filename requires_python upload g).0 x
          u.keeps
          (elim (Option-cases (read p.target g)) [
            | inl free ↦ inl free
            | inr (f, there) ↦ inr (
                store_local_package_there disk local_path project filename requires_python upload g
                  f there)
          ]),
      u.whole,
    )
