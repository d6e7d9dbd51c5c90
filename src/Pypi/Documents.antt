-- ===== src/Pypi/Documents.antt =====
-- internal/pypiproxy/proxy.go: the pages of the index, as JSON values and as HTML trees, in which the
-- links are rewritten. The parsers and printers are parameters.
use n0ding.Prelude.{
  ℕ, ℤ, Bool, not, ◌&&◌, ◌||◌, Option, none, some, List, [], ◌∷◌, ◌++◌, Text, codes, eq_text,
  if◌then◌else◌, equal_fold, to_lower, trim_space, contains_text, has_suffix,
}
use n0ding.Http.{Url}
use n0ding.Exchange.{Env, Request, Response}
use n0ding.Pypi.Urls.{Urls, Query, query_set}
use n0ding.Pypi.Proxy.{Proxy, file_origin_allowed}
use n0ding.Pypi.Links.{sha256_from_fragment, rewrite_href}

-- A decoded value of encoding/json. An atom is a number, a Boolean or null, as it is written.
mutual
  pub data Json : Type 0 where
    atom text : Text → Json
    array : Items → Json
    object : Members → Json

  pub data Items : Type 0 where
    no_items : Items
    item : Json → Items → Items

  pub data Members : Type 0 where
    no_members : Members
    member : Text → Json → Members → Members

pub record Attribute : Type 0 where
  pub key : Text
  pub val : Text

-- A node of golang.org/x/net/html: whether it is an element, its data, attributes and children.
mutual
  pub data Node : Type 0 where
    node : Bool → Text → List Attribute → Nodes → Node

  pub data Nodes : Type 0 where
    no_nodes : Nodes
    sibling : Node → Nodes → Nodes

-- m[key], if m is an object and has the key.
unfoldable pub find_member : Text → Members → Option Json
find_member key no_members = none
find_member key (member k v ms) =
    let rest = find_member key ms in if eq_text k key then some v else rest

abbrev sha_of_hash : Urls → Option Json → Text
sha_of_hash urls (some (text raw)) = sha256_from_fragment urls (codes "sha256=" ++ raw)
sha_of_hash urls _ = []

abbrev sha_of_hashes : Urls → Option Json → Text
sha_of_hashes urls (some (object ms)) = sha_of_hash urls (find_member (codes "sha256") ms)
sha_of_hashes urls _ = []

unfoldable pub sha_of : Urls → Members → Text
unfolding find_member
sha_of urls ms = sha_of_hashes urls (find_member (codes "hashes") ms)

abbrev or_no_query : Option Query → Query
or_no_query none = []
or_no_query (some q) = q

-- The link with the sum in its fragment.
abbrev with_sum : Urls → Text → Url → Url
with_sum urls sha link = record link {
  fragment =
      urls.encode_query
        (query_set (codes "sha256") sha (or_no_query (urls.parse_query link.fragment)));
}

abbrev with_link : Urls → Proxy → Text → Text → Url → Option Url → Text
with_link urls p raw sha page none = rewrite_href urls p raw page
with_link urls p raw sha page (some link) =
    let resolved = urls.resolve page link in
    let existing = sha256_from_fragment urls resolved.fragment in
    if not (file_origin_allowed p resolved)
    then rewrite_href urls p raw page
    else if not (eq_text existing []) && not (eq_text existing sha)
    then raw
    else if eq_text existing []
    then rewrite_href urls p (urls.show (with_sum urls sha link)) page
    else rewrite_href urls p (urls.show link) page

unfoldable pub rewrite_json_href : Urls → Proxy → Text → Text → Url → Text
rewrite_json_href urls p raw sha page =
    if eq_text sha []
    then rewrite_href urls p raw page
    else with_link urls p raw sha page (urls.parse (trim_space raw))

-- A string under the key "url" is a link.
abbrev pub member_value : Urls → Proxy → Text → Url → Text → Json → Json → Json
member_value urls p sha page key (text raw) rewritten =
    if equal_fold key (codes "url") then text (rewrite_json_href urls p raw sha page) else rewritten
member_value urls p sha page key (atom t) rewritten = rewritten
member_value urls p sha page key (array vs) rewritten = rewritten
member_value urls p sha page key (object ms) rewritten = rewritten

-- rewriteJSONValue
unfoldable mutual
  unfolding sha_of rewrite_json_href

  pub rewrite_json_value : Urls → Proxy → Json → Url → Json
  rewrite_json_value urls p (atom t) page = atom t
  rewrite_json_value urls p (text t) page = text t
  rewrite_json_value urls p (array vs) page = array (rewrite_items urls p vs page)
  rewrite_json_value urls p (object ms) page =
      object (rewrite_members urls p (sha_of urls ms) ms page)

  pub rewrite_items : Urls → Proxy → Items → Url → Items
  rewrite_items urls p no_items page = no_items
  rewrite_items urls p (item v vs) page =
      item (rewrite_json_value urls p v page) (rewrite_items urls p vs page)

  pub rewrite_members : Urls → Proxy → Text → Members → Url → Members
  rewrite_members urls p sha no_members page = no_members
  rewrite_members urls p sha (member k v ms) page =
      member k (member_value urls p sha page k v (rewrite_json_value urls p v page))
        (rewrite_members urls p sha ms page)

abbrev rewrite_attribute : Urls → Proxy → Url → Attribute → Attribute
rewrite_attribute urls p page a =
    if equal_fold a.key (codes "href") then record a { val = rewrite_href urls p a.val page } else a

unfoldable pub rewrite_attributes : Urls → Proxy → Url → List Attribute → List Attribute
rewrite_attributes urls p page [] = []
rewrite_attributes urls p page (a ∷ attributes) =
    rewrite_attribute urls p page a ∷ rewrite_attributes urls p page attributes

-- rewriteHTMLNode
unfoldable mutual
  unfolding rewrite_attributes

  pub rewrite_html_node : Urls → Proxy → Node → Url → Node
  rewrite_html_node urls p (node is_element tag attributes children) page =
      let rewritten = rewrite_attributes urls p page attributes in
      node is_element tag (if is_element && eq_text tag (codes "a") then rewritten else attributes)
        (rewrite_html_nodes urls p children page)

  pub rewrite_html_nodes : Urls → Proxy → Nodes → Url → Nodes
  rewrite_html_nodes urls p no_nodes page = no_nodes
  rewrite_html_nodes urls p (sibling n ns) page =
      sibling (rewrite_html_node urls p n page) (rewrite_html_nodes urls p ns page)

-- encoding/json with numbers as they are written, golang.org/x/net/html, encoding/base64, and
-- http.ServeContent with the name, the time and the content of a file.
pub record Codecs : Type 0 where
  pub decode_json : List ℕ → Option Json
  pub marshal_json : Json → Option (List ℕ)
  pub parse_html : List ℕ → Option Node
  pub render_html : Node → Option (List ℕ)
  pub decode_base64 : Text → Option Text
  pub serve_content : Request → Text → ℤ → List ℕ → Response → Response

abbrev html_type : Text → Option Text → Bool
html_type content_type none = contains_text (to_lower content_type) (codes "html")
html_type content_type (some t) =
    eq_text t (codes "text/html") || eq_text t (codes "application/vnd.pypi.simple.v1+html")

unfoldable pub is_html : Env → Text → Bool
is_html env content_type = html_type content_type (env.media_type content_type)

abbrev json_type : Text → Option Text → Bool
json_type content_type none = contains_text (to_lower content_type) (codes "json")
json_type content_type (some t) =
    eq_text t (codes "application/json") || has_suffix t (codes "+json")

unfoldable pub is_json : Env → Text → Bool
is_json env content_type = json_type content_type (env.media_type content_type)

abbrev rewrite_decoded : Urls → Codecs → Proxy → Url → Option Json → Option (List ℕ)
rewrite_decoded urls codecs p page none = none
rewrite_decoded urls codecs p page (some v) = codecs.marshal_json (rewrite_json_value urls p v page)

abbrev rewrite_document : Urls → Codecs → Proxy → Url → Option Node → Option (List ℕ)
rewrite_document urls codecs p page none = none
rewrite_document urls codecs p page (some n) = codecs.render_html (rewrite_html_node urls p n page)

-- rewriteSimple: `none` for an error.
unfoldable pub rewrite_simple : Env → Urls → Codecs → Proxy → List ℕ → Text → Url → Option (List ℕ)
unfolding is_json is_html
rewrite_simple env urls codecs p content content_type page =
    let as_json = rewrite_decoded urls codecs p page (codecs.decode_json content) in
    let as_html = rewrite_document urls codecs p page (codecs.parse_html content) in
    if is_json env content_type
    then as_json
    else if is_html env content_type
    then as_html
    else some content
