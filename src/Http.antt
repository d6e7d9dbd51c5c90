-- ===== src/Http.antt =====
-- What the program uses of net/http and net/url: a Header is a Go map from names to values, here a
-- list of entries whose order is one that a range over the map may take; an URL is its parts.
pub mod Canonical
pub mod Fields
use n0ding.Prelude.{
  ◌≡◌, refl, ℕ, Bool, true, false, ◌&&◌, ◌||◌, Option, none, some, List, [], ◌∷◌, ◌++◌, Text,
  eq_text, ◌==◌, leb, is_lower, is_upper, is_digit, lower, upper, if◌then◌else◌, to_lower, codes,
}

-- The characters of a header name by net/textproto: letters, digits and !#$%&'*+-.^_`|~.
unfoldable pub is_token : ℕ → Bool
is_token c =
    is_lower c
    || (is_upper c
        || (is_digit c
            || (c == 33
                || ((leb 35 c && leb c 39)
                    || (c == 42
                        || (c == 43
                            || (c == 45
                                || (c == 46
                                    || ((leb 94 c && leb c 96) || (c == 124 || c == 126))))))))))

unfoldable pub all_tokens : Text → Bool
unfolding is_token
all_tokens [] = true
all_tokens (c ∷ s) = is_token c && all_tokens s

-- A letter is upper case at the start and behind a hyphen.
unfoldable pub canonical_from : Bool → Text → Text
canonical_from up [] = []
canonical_from up (c ∷ s) = (if up then upper c else lower c) ∷ canonical_from (c == b'-') s

-- http.CanonicalHeaderKey
unfoldable pub canonical : Text → Text
unfolding canonical_from all_tokens
canonical name = if all_tokens name then canonical_from true name else name

abbrev pub Header : Type 0
Header = List (Text × List Text)

-- The values under a key as it is stored.
unfoldable pub lookup : Text → Header → List Text
lookup key [] = []
lookup key ((k, vs) ∷ h) = if eq_text k key then vs else lookup key h

unfoldable pub is_present : Text → Header → Bool
is_present key [] = false
is_present key ((k, vs) ∷ h) = eq_text k key || is_present key h

-- delete(h, key)
unfoldable pub delete : Text → Header → Header
delete key [] = []
delete key ((k, vs) ∷ h) = let rest = delete key h in if eq_text k key then rest else (k, vs) ∷ rest

-- h[key] = append(h[key], value)
unfoldable pub append_value : Text → Text → Header → Header
append_value key v [] = (key, v ∷ []) ∷ []
append_value key v ((k, vs) ∷ h) =
    if eq_text k key then (k, vs ++ v ∷ []) ∷ h else (k, vs) ∷ append_value key v h

unfoldable pub values : Header → Text → List Text
unfolding lookup canonical
values h name = lookup (canonical name) h

unfoldable pub add : Text → Text → Header → Header
unfolding append_value canonical
add name v h = append_value (canonical name) v h

unfoldable pub del : Text → Header → Header
unfolding delete canonical
del name h = delete (canonical name) h

unfoldable pub set : Text → Text → Header → Header
unfolding delete canonical
set name v h = (canonical name, v ∷ []) ∷ delete (canonical name) h

abbrev first_or_empty : List Text → Text
first_or_empty [] = []
first_or_empty (v ∷ vs) = v

-- Header.Get
unfoldable pub get : Header → Text → Text
unfolding values
get h name = first_or_empty (values h name)

-- for _, value := range values { h.Add(name, value) }
unfoldable pub add_all : Text → List Text → Header → Header
unfolding add
add_all name [] h = h
add_all name (v ∷ vs) h = add_all name vs (add name v h)

-- The parts of a *url.URL; `hostname` and `port` are what Hostname() and Port() return for `host`.
pub record Url : Type 0 where
  pub scheme : Text
  pub user : Option Text
  pub host : Text
  pub hostname : Text
  pub port : Text
  pub path : Text
  pub raw_path : Text
  pub raw_query : Text
  pub fragment : Text

canonical_test :
    (canonical (codes "www-authenticate") ≡ codes "Www-Authenticate")
    × (canonical (codes "TE") ≡ codes "Te")
    × (canonical (codes "a b") ≡ codes "a b")
unfolding canonical
canonical_test = (refl, refl, refl)
