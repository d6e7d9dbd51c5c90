-- ===== src/Config/Routes.antt =====
-- internal/config/config.go: repositories that Validate accepts do not clash.
use n0ding.Prelude.{
  true, false, Option, List, [], ◌∷◌, Text, eq_text, mem_text, All, ◌≡◌, arith, sym, ap, ◌∙◌, ◌&&◌,
  ◌||◌, Bool-cases, inl, inr,
}
use n0ding.Config.{
  ParsedUrl, Repository, valid_repository_name, valid_repository, valid_repositories, with_routes,
  is_pypi, file_path,
}

-- A text is no route of a repository, by with_routes.
abbrev pub IsElsewhere : Repository → Text → Type 0
IsElsewhere r x = mem_text x (with_routes r []) ≡ false

-- The second repository has another name, and its path and, for PyPI, its path of files are no routes
-- of the first.
abbrev pub IsApart : Repository → Repository → Type 0
IsApart r q =
    (eq_text q.name r.name ≡ false)
    × IsElsewhere r q.path
    × ((is_pypi q && mem_text (file_path q) (with_routes r [])) ≡ false)

abbrev pub NoClash : List Repository → Type 0
NoClash [] = Unit {0}
NoClash (r ∷ rs) = (valid_repository_name r.name ≡ true) × All (IsApart r) rs × NoClash rs

-- A text is among the new routes if it is one of the repository or an old one.
mem_text-with_routes :
    (r : Repository) (x : Text) (paths : List Text)
    → mem_text x (with_routes r paths) ≡ (mem_text x (with_routes r []) || mem_text x paths)
unfolding mem_text
mem_text-with_routes r x paths = elim (Bool-cases (is_pypi r)) [
  | inl p ↦ ground (arith, p)
  | inr p ↦ ground (arith, p)
]

-- None of the routes of the repository is taken, nor its name.
abbrev IsNew : List Text → List Text → Repository → Type 0
IsNew names paths r =
    (mem_text r.name names ≡ false)
    × (mem_text r.path paths ≡ false)
    × ((is_pypi r && mem_text (file_path r) paths) ≡ false)

one-IsApart :
    (r q : Repository) (names paths : List Text)
    → IsNew (r.name ∷ names) (with_routes r paths) q
    → IsApart r q × IsNew names paths q
unfolding mem_text
one-IsApart r q names paths h =
    let path_free = sym (mem_text-with_routes r q.path paths) ∙ h.1 in
    let file_free : (is_pypi q
          && (mem_text (file_path q) (with_routes r []) || mem_text (file_path q) paths))
        ≡ false =
      ap (λ b. is_pypi q && b) (sym (mem_text-with_routes r (file_path q) paths)) ∙ h.2 in
    (
      (ground (arith, h.0), ground (arith, path_free), ground (arith, file_free)),
      (ground (arith, h.0), ground (arith, path_free), ground (arith, file_free)),
    )

IsApart-of_IsNew :
    (r : Repository) (names paths : List Text) (rs : List Repository)
    → All (IsNew (r.name ∷ names) (with_routes r paths)) rs
    → All (IsApart r) rs × All (IsNew names paths) rs
IsApart-of_IsNew r names paths [] h = (tt, tt)
IsApart-of_IsNew r names paths (q ∷ rs) h =
    let rest = IsApart-of_IsNew r names paths rs h.1 in
    let one = one-IsApart r q names paths h.0 in ((one.0, rest.0), (one.1, rest.1))

one_valid :
    (parse : Text → Option ParsedUrl) (names paths : List Text) (r : Repository)
    → valid_repository parse names paths r ≡ true
    → (valid_repository_name r.name ≡ true) × IsNew names paths r
unfolding valid_repository mem_text
one_valid parse names paths r e =
    (ground (arith, e), (ground (arith, e), ground (arith, e), ground (arith, e)))

valid-NoClash :
    (parse : Text → Option ParsedUrl) (names paths : List Text) (rs : List Repository)
    → valid_repositories parse names paths rs ≡ true
    → All (IsNew names paths) rs × NoClash rs
unfolding valid_repositories
valid-NoClash parse names paths [] h = (tt, tt)
valid-NoClash parse names paths (r ∷ rs) h =
    let (news, apart) =
      valid-NoClash parse (r.name ∷ names) (with_routes r paths) rs (ground (arith, h)) in
    let both = IsApart-of_IsNew r names paths rs news in
    let here : valid_repository parse names paths r ≡ true = ground (arith, h) in
    let facts = one_valid parse names paths r here in ((facts.1, both.1), (facts.0, both.0, apart))

-- If the loop of Validate over the repositories ends with no error, then every name is a valid
-- repository name, and no two repositories have the same name, the same path, the same path of files
-- of a PyPI repository, or one's path as the other's path of files.
pub valid_repositories-NoClash :
    (parse : Text → Option ParsedUrl) (rs : List Repository)
    → valid_repositories parse [] [] rs ≡ true
    → NoClash rs
valid_repositories-NoClash parse rs h = (valid-NoClash parse [] [] rs h).1
