-- ===== src/Config/Settings.antt =====
-- internal/config/config.go: the sections of a configuration beside the repositories, and the tests of
-- Validate on them.
use n0ding.Prelude.{
  ◌^◌, ℤ, pos, leb_ℤ, ltb_ℤ, Bool, true, false, not, ◌&&◌, ◌||◌, Option, none, some, List, [], ◌∷◌,
  Text, codes, eq_text, trim_space, to_lower, if◌then◌else◌,
}
use n0ding.Config.{ParsedUrl, Repository, valid_repositories}

pub record Server : Type 0 where
  pub listen : Text
  pub public_base_url : Text
  pub log : Text

-- A float64: a finite one is a multiple of 2^-1074, given by the factor.
pub data Float : Type 0 where
  nan : Float
  infinite : Bool → Float
  finite : ℤ → Float

pub record Storage : Type 0 where
  pub path : Text
  pub max_age : ℤ
  pub gc_interval : ℤ
  pub stale_temp_age : ℤ
  pub max_bytes : ℤ
  pub high_watermark : Float
  pub low_watermark : Float
  pub min_free_bytes : ℤ

pub record Config : Type 0 where
  pub server : Server
  pub storage : Storage
  pub operator_token_file : Text
  pub repositories : List Repository

pub data Level : Type 0 where
  debug info warn error : Level

unfoldable pub log_level : Server → Level
unfolding to_lower eq_text
log_level s =
    if eq_text (to_lower s.log) (codes "debug")
    then debug
    else if eq_text (to_lower s.log) (codes "warn")
    then warn
    else if eq_text (to_lower s.log) (codes "error")
    then error
    else info

abbrev pub one : ℤ
one = pos (2 ^ 1074)

-- Neither NaN nor infinite, above 0 and below 1.
abbrev valid_low : Float → Bool
valid_low (finite low) = ltb_ℤ (pos 0) low && ltb_ℤ low one
valid_low nan = false
valid_low (infinite negative) = false

abbrev valid_high : Float → Float → Bool
valid_high (finite low) (finite high) = ltb_ℤ low high && ltb_ℤ high one
valid_high _ _ = false

abbrev is_public : Option ParsedUrl → Bool
is_public none = false
is_public (some u) =
    not (eq_text u.scheme [] || eq_text u.host [])
    && (eq_text u.scheme (codes "http") || eq_text u.scheme (codes "https"))

abbrev is_positive : ℤ → Bool
is_positive z = not (leb_ℤ z (pos 0))

abbrev is_blank : Text → Bool
is_blank s = eq_text (trim_space s) []

abbrev is_listed : List Repository → Bool
is_listed [] = false
is_listed (r ∷ rs) = true

-- Validate: true where it returns no error.
unfoldable pub valid_config : (Text → Option ParsedUrl) → Config → Bool
unfolding valid_repositories
valid_config parse c =
    not (is_blank c.server.listen)
    && (is_public (parse c.server.public_base_url)
        && (not (is_blank c.storage.path)
            && (is_positive c.storage.max_age
                && (is_positive c.storage.gc_interval
                    && (is_positive c.storage.stale_temp_age
                        && (leb_ℤ (pos 0) c.storage.max_bytes
                            && (leb_ℤ (pos 0) c.storage.min_free_bytes
                                && (valid_low c.storage.low_watermark
                                    && (valid_high c.storage.low_watermark c.storage.high_watermark
                                        && (is_listed c.repositories
                                            && valid_repositories parse [] []
                                                c.repositories))))))))))
