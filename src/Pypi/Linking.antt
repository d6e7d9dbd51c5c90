-- ===== src/Pypi/Linking.antt =====
-- internal/pypiproxy/proxy.go: what the link of an upload and what follows it do to the other files.
use n0ding.Prelude.{
  ℕ, false, Option, none, some, List, ◌≡◌, refl, ap, ◌∙◌, inl, inr, Bool-cases, Option-cases,
}
use n0ding.Cache.Files.{
  FilePath, File, Files, Op, eq_path, eq_path_iff, read, write, erase, read-erase, read-write,
}
use n0ding.Pypi.Disk.{
  LocalPackage, Disk, cached, link, Stored, existing, refused, stored, discard, new_file, Places,
  describe, linked, link_temp,
}

-- Every file is kept, the temporary one and the description of the upload apart.
abbrev pub Keeps : Places → Files → Files → Type 0
Keeps p g g' =
    (x : FilePath) (f : File)
    → eq_path p.temp x ≡ false
    → eq_path p.description x ≡ false
    → read x g ≡ some f
    → read x g' ≡ some f

-- The same, the target apart.
KeepsOthers : Places → Files → Files → Type 0
KeepsOthers p g g' =
    (x : FilePath) (f : File)
    → eq_path p.temp x ≡ false
    → eq_path p.description x ≡ false
    → eq_path p.target x ≡ false
    → read x g ≡ some f
    → read x g' ≡ some f

pub write_elsewhere :
    (q x : FilePath) (f : File) (g : Files) → eq_path q x ≡ false → read x (write q f g) ≡ read x g
write_elsewhere q x f g h = read-write q x f g ∙ rw h refl

erase_elsewhere : (q x : FilePath) (g : Files) → eq_path q x ≡ false → read x (erase q g) ≡ read x g
erase_elsewhere q x g h = read-erase q x g ∙ rw h refl

discard_elsewhere :
    (disk : Disk) (q x : FilePath) (g : Files)
    → eq_path q x ≡ false
    → read x (discard disk q g) ≡ read x g
unfolding discard
discard_elsewhere disk q x g h = elim (Bool-cases (disk.fails (cached Op.remove) q)) [
  | inl e ↦ rw e refl
  | inr e ↦ rw e (erase_elsewhere q x g h)
]

pub write_there : (q : FilePath) (f : File) (g : Files) → read q (write q f g) ≡ some f
write_there q f g = read-write q q f g ∙ rw ((eq_path_iff q q).1 refl) refl

-- What is kept apart from the target is kept, where no file was the target.
Keeps-of_KeepsOthers :
    (p : Places) (g g' : Files) → read p.target g ≡ none → KeepsOthers p g g' → Keeps p g g'
unfolding KeepsOthers
Keeps-of_KeepsOthers p g g' free h x f t d e = elim (Bool-cases (eq_path p.target x)) [
  | inr apart ↦ h x f t d apart e
  | inl same ↦ absurd (cc ((ap (λ y. read y g) ((eq_path_iff p.target x).0 same))))
]

-- What holds behind a call: the package that is returned is `pkg`, the target was free and is a copy of
-- the content, and the description is that of `pkg`.
abbrev pub IsStored : Disk → Places → LocalPackage → List ℕ → Files → Files × Stored → Type 0
IsStored disk p pkg content g (g', existing) = Unit
IsStored disk p pkg content g (g', refused) = Unit
IsStored disk p pkg content g (g', stored q) =
    (q ≡ pkg)
    × (read p.target g ≡ none)
    × (read p.target g' ≡ some (new_file disk content))
    × ((text : List ℕ) × (disk.marshal pkg ≡ some text)
        × (read p.description g' ≡ some (new_file disk text)))

-- Both, of one result.
pub record IsUploaded (disk : Disk) (p : Places) (pkg : LocalPackage) (content : List ℕ) (g : Files)
    (r : Files × Stored) : Type 0 where
  pub keeps : Keeps p g r.0
  pub whole : IsStored disk p pkg content g r

module _ (disk : Disk) (p : Places) (pkg : LocalPackage) (content : List ℕ)
    (temp_apart : eq_path p.temp p.target ≡ false)
    (description_apart : eq_path p.description p.target ≡ false) where
  describe-KeepsOthers :
      (g h : Files) (o : Option (List ℕ))
      → KeepsOthers p g h
      → KeepsOthers p g (describe disk p pkg h o).0
  unfolding KeepsOthers
  describe-KeepsOthers g h none k = k
  describe-KeepsOthers g h (some text) k =
      elim (Bool-cases (disk.fails (cached Op.write_file) p.description)) [
        | inl e ↦ rw e (λ x f t d a r.
            discard_elsewhere disk p.target x _ a
            ∙ (write_elsewhere p.description x _ h d ∙ k x f t d a r))
        | inr e ↦ rw e (λ x f t d a r. write_elsewhere p.description x _ h d ∙ k x f t d a r)
      ]

  describe-IsStored :
      (g h : Files) (o : Option (List ℕ))
      → disk.marshal pkg ≡ o
      → read p.target g ≡ none
      → read p.target h ≡ some (new_file disk content)
      → IsStored disk p pkg content g (describe disk p pkg h o)
  describe-IsStored g h none m free there = tt
  describe-IsStored g h (some text) m free there =
      elim (Bool-cases (disk.fails (cached Op.write_file) p.description)) [
        | inl e ↦ rw e tt
        | inr e ↦ rw e (
          refl,
          free,
          write_elsewhere p.description p.target _ h description_apart ∙ there,
          (text, m, write_there p.description _ h),
        )
      ]

  linked-IsUploaded :
      (g : Files)
      → read p.target g ≡ none
      → IsUploaded disk p pkg content g
          (linked disk p pkg (write p.target (new_file disk content) g))
  unfolding KeepsOthers
  linked-IsUploaded g free =
      let h = write p.target (new_file disk content) g in
      let begun : KeepsOthers p g h = (λ x f t d a r. write_elsewhere p.target x _ g a ∙ r) in
      let cleaned : KeepsOthers p g (erase p.temp h) =
        (λ x f t d a r. erase_elsewhere p.temp x h t ∙ begun x f t d a r) in
      elim (Bool-cases (disk.fails (cached Op.remove) p.temp)) [
        | inl e ↦ rw e (record {
          keeps =
              Keeps-of_KeepsOthers p g _ free
                (λ x f t d a r. discard_elsewhere disk p.target x h a ∙ begun x f t d a r);
          whole = tt;
        })
        | inr e ↦ rw e (record {
          keeps =
              Keeps-of_KeepsOthers p g _ free (describe-KeepsOthers g _ (disk.marshal pkg) cleaned);
          whole =
              describe-IsStored g _ (disk.marshal pkg) refl free
                (erase_elsewhere p.temp p.target h temp_apart ∙ write_there p.target _ g);
        })
      ]

  pub discarded-IsUploaded :
      (g : Files) (r : Stored)
      → IsStored disk p pkg content g (discard disk p.temp g, r)
      → IsUploaded disk p pkg content g (discard disk p.temp g, r)
  discarded-IsUploaded g r whole = record {
    keeps = λ x f t d e. discard_elsewhere disk p.temp x g t ∙ e;
    whole = whole;
  }

  pub link_temp-IsUploaded :
      (g : Files)
      → read p.temp g ≡ some (new_file disk content)
      → IsUploaded disk p pkg content g (link_temp disk p pkg g)
  link_temp-IsUploaded g temp = elim (Option-cases (read p.target g)) [
    | inr (f, e) ↦ rw e (discarded-IsUploaded g existing tt)
    | inl free ↦ elim (Bool-cases (disk.fails link p.target)) [
      | inl e ↦ rw (free, e) (discarded-IsUploaded g refused tt)
      | inr e ↦ rw (free, e, temp) (linked-IsUploaded g free)
    ]
  ]

  -- What others did before, and a target that was free before them.
  IsStored-before :
      (g h : Files) (r : Files × Stored)
      → read p.target g ≡ none
      → IsStored disk p pkg content h r
      → IsStored disk p pkg content g r
  IsStored-before g h (g', existing) free s = tt
  IsStored-before g h (g', refused) free s = tt
  IsStored-before g h (g', stored q) free s = (s.0, free, s.2, s.3)

  pub IsUploaded-before :
      (g h : Files) (r : Files × Stored)
      → read p.target g ≡ none
      → Keeps p g h
      → IsUploaded disk p pkg content h r
      → IsUploaded disk p pkg content g r
  IsUploaded-before g h r free k u = record {
    keeps = λ x f t d e. u.keeps x f t d (k x f t d e);
    whole = IsStored-before g h r free u.whole;
  }
