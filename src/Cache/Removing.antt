-- ===== src/Cache/Removing.antt =====
-- internal/cache/store.go: what RemoveCandidate changes.
use n0ding.Prelude.{
  pos, ◌-ℤ◌, int64, eq_of_parts, ℤ, Bool, true, false, Option, none, some, ◌≡◌, refl, ap, ◌∙◌, ◌⊎◌,
  inl, inr, arith, Bool-cases,
}
use n0ding.Cache.Files.{FilePath, Files, Op, eq_path, eq_path_iff, read, erase, read-erase}
use n0ding.Cache.Naming.{
  Metadata, Platform, Reading, missing, broken, found, body_path_for_metadata, read_metadata,
  body_path_for_entry,
}
use n0ding.Cache.Store.{
  Store, Candidate, remove_file, absent, refused, Removed, kept, gone, kept_error, gone_error, eq_ℤ,
  drop_body, drop_resolved, is_same_generation, check_generation, check_name, remove_candidate,
}
use n0ding.Cache.Keeping.{remove_file-cases}

-- The Boolean that RemoveCandidate returns.
abbrev pub is_gone : Removed → Bool
is_gone kept = false
is_gone gone = true
is_gone kept_error = false
is_gone gone_error = true

eq_of_test : (a b : ℤ) → eq_ℤ a b ≡ true → a ≡ b
eq_of_test a b h = eq_of_parts a b (ground (arith, h))

eq_ℤ_refl : (a : ℤ) → eq_ℤ a a ≡ true
eq_ℤ_refl a = ground arith

-- What the store holds is still what Candidates saw: the metadata can be read, names the body of the
-- candidate, and has its size.
abbrev pub IsCurrent : Platform → Candidate → Store → Type 0
IsCurrent platform c s =
    (legacy : FilePath) × (m : Metadata) × (body_path_for_metadata c.metadata_path ≡ some legacy)
    × (read_metadata platform s.files c.metadata_path ≡ found m)
    × (body_path_for_entry c.metadata_path legacy m ≡ some c.body_path)
    × (m.content_bytes ≡ c.bytes)

-- What makes RemoveCandidate return false: the candidate is not current, its body is not there, or the
-- body cannot be removed.
abbrev pub IsHindered : Platform → Candidate → Store → Type 0
IsHindered platform c s =
    (¬ IsCurrent platform c s)
    ⊎ (read c.body_path s.files ≡ none)
    ⊎ (platform.fails Op.remove c.body_path ≡ true)

-- Nothing has changed, with a reason, or a current candidate is gone and counted as such; `p` is
-- another path.
abbrev pub IsExact : Platform → Candidate → FilePath → Store → Store × Removed → Type 0
IsExact platform c p s x =
    ((is_gone x.1 ≡ false) × (x.0 ≡ s) × IsHindered platform c s)
    ⊎ ((is_gone x.1 ≡ true)
        × IsCurrent platform c s
        × (x.0.bytes ≡ int64 (s.bytes -ℤ c.bytes))
        × (x.0.objects ≡ int64 (s.objects -ℤ pos 1))
        × (read c.body_path x.0.files ≡ none)
        × (read p x.0.files ≡ read p s.files))

module _ (platform : Platform) (c : Candidate) (p : FilePath) (s : Store)
    (other_body : eq_path c.body_path p ≡ false)
    (other_metadata : eq_path c.metadata_path p ≡ false) where
  body_gone : (files : Files) → read c.body_path (erase c.body_path files) ≡ none
  body_gone files =
      read-erase c.body_path c.body_path files
      ∙ rw ((eq_path_iff c.body_path c.body_path).1 refl) refl

  body_still_gone :
      (files : Files) → read c.body_path (erase c.metadata_path (erase c.body_path files)) ≡ none
  body_still_gone files =
      read-erase c.metadata_path c.body_path (erase c.body_path files)
      ∙ elim (Bool-cases (eq_path c.metadata_path c.body_path)) [
        | inl e ↦ rw e refl
        | inr e ↦ rw e (body_gone files)
      ]

  other_kept : (files : Files) → read p (erase c.body_path files) ≡ read p files
  other_kept files = read-erase c.body_path p files ∙ rw other_body refl

  other_still_kept :
      (files : Files) → read p (erase c.metadata_path (erase c.body_path files)) ≡ read p files
  other_still_kept files =
      read-erase c.metadata_path p (erase c.body_path files) ∙ rw other_metadata (other_kept files)

  absent_body : remove_file platform c.body_path s.files ≡ absent → read c.body_path s.files ≡ none
  unfolding remove_file
  absent_body e = ground arith

  refused_body :
      remove_file platform c.body_path s.files ≡ refused
      → platform.fails Op.remove c.body_path ≡ true
  unfolding remove_file
  refused_body e = ground arith

  drop_body-IsExact :
      IsCurrent platform c s
      → IsExact platform c p s (drop_body platform c s (remove_file platform c.body_path s.files))
  drop_body-IsExact current = elim (remove_file-cases platform c.body_path s.files) [
    | inr (inl e) ↦ rw e (inl (refl, refl, inr (inl (absent_body e))))
    | inr (inr e) ↦ rw e (inl (refl, refl, inr (inr (refused_body e))))
    | inl e ↦ rw e (elim (remove_file-cases platform c.metadata_path (erase c.body_path s.files)) [
      | inl f ↦
          rw f (inr (refl, current, refl, refl, body_still_gone s.files, other_still_kept s.files))
      | inr (inl f) ↦ rw f (inr (refl, current, refl, refl, body_gone s.files, other_kept s.files))
      | inr (inr f) ↦ rw f (inr (refl, current, refl, refl, body_gone s.files, other_kept s.files))
    ])
  ]

  module _ (legacy : FilePath) (named : body_path_for_metadata c.metadata_path ≡ some legacy) where
    resolved-IsExact :
        (m : Metadata) (o : Option FilePath)
        → read_metadata platform s.files c.metadata_path ≡ found m
        → body_path_for_entry c.metadata_path legacy m ≡ o
        → is_same_generation c m o ≡ true
        → IsExact platform c p s (drop_resolved platform c s o)
    resolved-IsExact m none there entry same = absurd (ground (arith, same))
    resolved-IsExact m (some path) there entry same =
        let body : path ≡ c.body_path = (eq_path_iff path c.body_path).0 (ground (arith, same)) in
        let size : m.content_bytes ≡ c.bytes =
          eq_of_test m.content_bytes c.bytes (ground (arith, same)) in
        rw body (drop_body-IsExact (legacy, m, named, there, entry ∙ ap some body, size))

    current_is_same :
        (m : Metadata)
        → body_path_for_entry c.metadata_path legacy m ≡ some c.body_path
        → m.content_bytes ≡ c.bytes
        → is_same_generation c m (body_path_for_entry c.metadata_path legacy m) ≡ true
    current_is_same m body size =
        rw (body, size, (eq_path_iff c.body_path c.body_path).1 refl) (eq_ℤ_refl c.bytes)

    not-IsCurrent :
        (m : Metadata)
        → read_metadata platform s.files c.metadata_path ≡ found m
        → is_same_generation c m (body_path_for_entry c.metadata_path legacy m) ≡ false
        → ¬ IsCurrent platform c s
    not-IsCurrent m there differs (l, n, named', there', body, size) =
        let same_name : l ≡ legacy = (ground (arith, named, named')) in
        let same_metadata : n ≡ m = (ground (arith, there, there')) in
        let same =
          current_is_same m (rw (← same_name, ← same_metadata) body) (rw (← same_metadata) size) in
        absurd (cc (same, differs))

    check_generation-IsExact :
        (r : Reading)
        → read_metadata platform s.files c.metadata_path ≡ r
        → IsExact platform c p s (check_generation platform c legacy s r)
    check_generation-IsExact missing there =
        inl (refl, refl, inl (λ (l, m, n, r, b, z). ground (arith, there, r)))
    check_generation-IsExact broken there =
        inl (refl, refl, inl (λ (l, m, n, r, b, z). ground (arith, there, r)))
    check_generation-IsExact (found m) there =
        elim (Bool-cases (is_same_generation c m (body_path_for_entry c.metadata_path legacy m))) [
          | inl same ↦ rw same (resolved-IsExact m _ there refl same)
          | inr differs ↦ rw differs (inl (refl, refl, inl (not-IsCurrent m there differs)))
        ]

  check_name-IsExact :
      (o : Option FilePath)
      → body_path_for_metadata c.metadata_path ≡ o
      → IsExact platform c p s (check_name platform c s o)
  check_name-IsExact none named =
      inl (refl, refl, inl (λ (l, m, n, r, b, z). ground (arith, named, n)))
  check_name-IsExact (some legacy) named =
      check_generation-IsExact legacy named (read_metadata platform s.files c.metadata_path) refl

-- RemoveCandidate returns false and changes nothing, and then the metadata could not be read or did not
-- name the body of the candidate with its size, or that body was not there or could not be removed. Or
-- it returns true, and then the metadata named the body of the candidate with its size, that body is
-- removed, its size and one object are off the counters, and every file but the two of the candidate is
-- kept.
pub remove_candidate-IsExact :
    (platform : Platform) (c : Candidate) (p : FilePath) (s : Store)
    → eq_path c.body_path p ≡ false
    → eq_path c.metadata_path p ≡ false
    → IsExact platform c p s (remove_candidate platform c s)
unfolding remove_candidate
remove_candidate-IsExact platform c p s other_body other_metadata =
    check_name-IsExact platform c p s other_body other_metadata
      (body_path_for_metadata c.metadata_path) refl
