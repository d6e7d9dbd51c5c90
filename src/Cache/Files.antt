-- ===== src/Cache/Files.antt =====
-- The file system below the cache root, as far as the store uses it. A path is a directory and a
-- name in it. Any call may fail, by the choice of an oracle.
use n0ding.Prelude.{
  ℕ, ℤ, Bool, true, ◌&&◌, Option, none, some, List, [], ◌∷◌, Text, eq_text, eq_text_iff,
  if◌then◌else◌, ◌≡◌, ◌↔◌, arith, ap,
}

pub record FilePath : Type 0 where
  pub dir : Text
  pub name : Text

unfoldable pub eq_path : FilePath → FilePath → Bool
eq_path p q = eq_text p.dir q.dir && eq_text p.name q.name

-- `regular` is false for what os.Stat finds that is no regular file.
pub record File : Type 0 where
  pub content : List ℕ
  pub mod_time : ℤ
  pub regular : Bool

abbrev pub Files : Type 0
Files = List (FilePath × File)

unfoldable pub read : FilePath → Files → Option File
read p [] = none
read p ((q, f) ∷ fs) = if eq_path q p then some f else read p fs

unfoldable pub erase : FilePath → Files → Files
erase p [] = []
erase p ((q, f) ∷ fs) = let rest = erase p fs in if eq_path q p then rest else (q, f) ∷ rest

unfoldable pub write : FilePath → File → Files → Files
write p f fs = (p, f) ∷ erase p fs

-- The calls that may fail. `rename_again` is the second attempt of `replace`.
pub data Op : Type 0 where
  walk open_file stat remove rename rename_again chtimes mkdir create sync close_file marshal_json
        write_file info :
      Op

pub eq_path_iff : (p q : FilePath) → (eq_path p q ≡ true) ↔ (p ≡ q)
unfolding eq_path
eq_path_iff p q = (
  λ h. ground (arith, eq_text_iff p.dir q.dir, eq_text_iff p.name q.name),
  λ e. ground (
    arith,
    eq_text_iff p.dir q.dir,
    eq_text_iff p.name q.name,
    ap (λ (r : FilePath). r.dir) e,
    ap (λ (r : FilePath). r.name) e,
  ),
)

pub read-erase :
    (p q : FilePath) (fs : Files) → read q (erase p fs) ≡ (if eq_path p q then none else read q fs)
unfolding read erase
read-erase p q [] = ground arith
read-erase p q ((r, f) ∷ fs) =
    ground (arith, read-erase p q fs, eq_path_iff p q, eq_path_iff r p, eq_path_iff r q)

pub read-write :
    (p q : FilePath) (f : File) (fs : Files)
    → read q (write p f fs) ≡ (if eq_path p q then some f else read q fs)
unfolding read write
read-write p q f fs = ground (arith, read-erase p q fs)
