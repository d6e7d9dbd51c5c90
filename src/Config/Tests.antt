-- ===== src/Config/Tests.antt =====
-- A configuration of two repositories.
use n0ding.Prelude.{
  pos, none, to_lower, cut, trim, trim_left, trim_right, trim_prefix, true, false, Option, some,
  List, [], ◌∷◌, Text, codes, eq_text, mem_text, has_prefix, has_suffix, trim_suffix, split,
  trim_space, ◌≡◌, refl,
}
use n0ding.Config.{
  ParsedUrl, Repository, valid_repositories, valid_repository, valid_repository_name,
  name_characters, valid_form, all_origins, split_csv, strip_comment, strip_from,
}
use n0ding.Config.Settings.{Config, valid_config, log_level, warn}
use n0ding.Config.Parse.{
  Parsers, parse_config, parse_lines, parse_line, parse_value, assign, set_server, set_last,
  set_repository, open_section, defaults,
}
use n0ding.Config.Routes.{NoClash, valid_repositories-NoClash}

abbrev repository : Text → Text → Text → Repository
repository name kind path = record {
  name = name;
  kind = kind;
  path = path;
  upstream = codes "https://registry.example";
  ttl = pos 1000;
  forward_authorization = false;
  publish_token_file = [];
  allowed_file_origins = [];
}

abbrev repositories : List Repository
repositories =
    repository (codes "npm") (codes "npm") (codes "/npm/")
    ∷ repository (codes "py-pi") (codes "pypi") (codes "/pypi/simple/")
    ∷ []

abbrev parse : Text → Option ParsedUrl
parse url = some (record {
  scheme = codes "https";
  host = codes "registry.example";
  has_user = false;
  path = [];
  raw_query = [];
  fragment = [];
})

accepted : valid_repositories parse [] [] repositories ≡ true
unfolding valid_repositories valid_repository valid_repository_name name_characters valid_form
    all_origins eq_text mem_text has_prefix has_suffix trim_suffix
accepted = refl

valid_repositories-NoClash_example : NoClash repositories
valid_repositories-NoClash_example = valid_repositories-NoClash parse repositories accepted

comment_test : strip_comment (codes "a = \"#1\" # x") ≡ codes "a = \"#1\" "
unfolding strip_comment
comment_test = refl

items_test : split_csv (codes "a, ,b") ≡ codes "a" ∷ codes "b" ∷ []
unfolding split_csv split trim_space eq_text
items_test = refl

abbrev trim_quotes : Text → Text
trim_quotes t = trim_suffix (trim_prefix t (codes "\"")) (codes "\"")

abbrev parsers : Parsers
parsers = record {
  parse_url = parse;
  unquote = λ t. some (trim_quotes t);
  expand_env = λ t. t;
  parse_duration = λ t. some (pos 5);
  parse_float = λ t. none;
}

abbrev lines : List Text
lines =
    codes "[server]"
    ∷ codes "listen = \":9090\"  # the port"
    ∷ codes ""
    ∷ codes "[repository.npm]"
    ∷ codes "upstream = https://registry.example"
    ∷ codes "ttl = 5ns"
    ∷ []

abbrev repositories_of : Option Config → List Repository
repositories_of none = []
repositories_of (some c) = c.repositories

-- The section of the repository sets its upstream and its time, and keeps the other defaults.
parse_test :
    repositories_of (parse_config parsers lines false)
    ≡ record (repository (codes "npm") (codes "npm") (codes "/npm/")) { ttl = pos 5 } ∷ []
unfolding parse_config parse_lines parse_line parse_value assign set_server set_last set_repository
    open_section defaults valid_config valid_repositories valid_repository valid_repository_name
    name_characters valid_form all_origins eq_text mem_text has_prefix has_suffix trim_prefix
    trim_suffix trim_space trim trim_left trim_right cut strip_comment strip_from
parse_test = refl

level_test : log_level (record { listen = []; public_base_url = []; log = codes "WARN" }) ≡ warn
unfolding log_level eq_text to_lower
level_test = refl

-- Validate accepts a repository on the path at which a PyPI repository serves its packages.
packages_clash_test :
    valid_repositories parse [] [] (
      repository (codes "py-pi") (codes "pypi") (codes "/a/simple/")
      ∷ repository (codes "npm") (codes "npm") (codes "/a/packages/")
      ∷ [])
    ≡ true
unfolding valid_repositories valid_repository valid_repository_name name_characters valid_form
    all_origins eq_text mem_text has_prefix has_suffix trim_suffix
packages_clash_test = refl
