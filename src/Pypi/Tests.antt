-- ===== src/Pypi/Tests.antt =====
-- A proxy of a package index at one upstream, a link to a file, and an upload.
use n0ding.Prelude.{
  pos, true, false, some, [], ◌∷◌, Text, codes, eq_text, ◌==◌, split, cut, has_prefix, has_suffix,
  trim_left, trim_right, trim_prefix, trim_space, trim, to_lower, mem_text, ◌≡◌, ◌↔◌, ◌⊎◌, refl,
  arith, Bool-cases, inl, inr,
}
use n0ding.Hex.{decode_hex, encode_hex}
use n0ding.Http.{get, set, values, canonical, lookup, delete}
use n0ding.Cache.Files.{eq_path, read, write, erase}
use n0ding.Pypi.Names.{
  normalize_from, normalize_project_name, safe_distribution_filename, has_slash,
}
use n0ding.Pypi.Normal.{IsName, normalize_project_name-IsNormal}
use n0ding.Pypi.Origins.{origin_key, same_origin, origin_key_iff}
use n0ding.Pypi.Urls.{query_get, query_set}
use n0ding.Pypi.Proxy.{fail, file_origin_allowed}
use n0ding.Pypi.Links.{
  sha256_from_fragment, checked_sha, file_query, file_target_url, without_fragment, is_fetchable,
}
use n0ding.Pypi.RoundTrip.{
  IsPathText, expected_target, file_links_lead_back, link_query-proxy_file_url,
}
use n0ding.Pypi.Disk.{places, package_of, store_local_package, discard, local_project_path}
use n0ding.Pypi.Linking.{IsStored}
use n0ding.Pypi.Uploads.{IsKept, uploads_keep_releases}
use n0ding.Pypi.Publish.{serve_upload, accept_upload, authorized_upload}
use n0ding.Pypi.Handler.{serve_http}
use n0ding.Pypi.Token.{CarriesToken, private_files_need_token}
use n0ding.Pypi.Samples.{
  upstream, with_port, plain, written, file, urls, proxy, fragment, file_request, disk, release,
  upload, before, world, post, response,
}

abbrev name : Text
name = codes " My__Pkg.Name "

normalize_project_name-IsNormal_example :
    IsName (normalize_project_name name)
    × (normalize_project_name (normalize_project_name name) ≡ normalize_project_name name)
normalize_project_name-IsNormal_example = normalize_project_name-IsNormal name

origin_key_iff_example :
    (origin_key upstream ≡ origin_key with_port) ↔ (same_origin upstream with_port ≡ true)
origin_key_iff_example =
    origin_key_iff upstream with_port (refl, (refl, (refl, (refl, (refl, tt)))))
      (refl, (refl, (refl, (refl, (refl, tt))))) tt (refl, (refl, (refl, tt)))

plain-IsPathText : (t : Text) → IsPathText (plain t)
plain-IsPathText [] = (tt, tt)
plain-IsPathText (c ∷ t) =
    let rest = plain-IsPathText t in
    elim (Bool-cases (c == b'?')) [
      | inl mark ↦ rw mark rest
      | inr no_mark ↦ elim (Bool-cases (c == b'#')) [
        | inl hash ↦ rw (no_mark, hash) rest
        | inr no_hash ↦ rw (no_mark, no_hash) ((no_mark, rest.0), (no_hash, rest.1))
      ]
    ]

base_url : IsPathText proxy.proxy_file_base_url
base_url = ground arith

parses : urls.parse (urls.show (without_fragment file)) ≡ some (without_fragment file)
unfolding eq_text
parses = refl

shown_some : eq_text (urls.show (without_fragment file)) [] ≡ false
unfolding eq_text
shown_some = refl

allowed : is_fetchable proxy (without_fragment file) ≡ true
unfolding file_origin_allowed origin_key mem_text eq_text to_lower
allowed = refl

read_back :
    (key : Text)
    → query_get (urls.query_of (urls.encode_query (file_query urls file fragment))) key
      ≡ query_get (file_query urls file fragment) key
unfolding file_query sha256_from_fragment checked_sha decode_hex query_set query_get lookup delete
    split cut eq_text to_lower trim_space trim trim_left trim_right
read_back key = refl

file_links_lead_back_example :
    file_target_url urls proxy file_request
    ≡ some (expected_target urls file_request (without_fragment file) fragment)
file_links_lead_back_example =
    file_links_lead_back urls proxy file fragment file_request read_back
      (λ values. (plain-IsPathText (written values)).1) plain-IsPathText base_url parses shown_some
      allowed
      (link_query-proxy_file_url urls proxy file fragment
        (λ values. (plain-IsPathText (written values)).1) plain-IsPathText base_url)

uploads_keep_releases_example :
    IsKept
      (places disk (codes "/private") (codes "pkg") (codes "pkg-2.zip"))
      before
      (store_local_package disk
        (codes "/private")
        (codes "pkg")
        (codes "pkg-2.zip")
        []
        upload
        before).0
      release
    × IsStored disk
        (places disk (codes "/private") (codes "pkg") (codes "pkg-2.zip"))
        (package_of disk (codes "pkg-2.zip") [] upload)
        upload.content
        before
        (store_local_package disk
          (codes "/private")
          (codes "pkg")
          (codes "pkg-2.zip")
          []
          upload
          before)
uploads_keep_releases_example =
    uploads_keep_releases disk (codes "/private") (codes "pkg") (codes "pkg-2.zip") [] upload before
      release (λ g x f e. e)

private_files_need_token_example :
    ((serve_http world post proxy response).0.disk ≡ proxy.disk)
    ⊎ ((post.url_path ≡ proxy.upload_path)
        × (post.method ≡ codes "POST")
        × CarriesToken world.codecs.decode_base64 proxy.publish_token
            (get post.header (codes "Authorization")))
private_files_need_token_example = private_files_need_token world post proxy response

stored_test : (serve_http world post proxy response).1.status ≡ some (pos 201)
unfolding serve_http serve_upload accept_upload authorized_upload store_local_package discard
    local_project_path normalize_project_name normalize_from safe_distribution_filename has_slash
    encode_hex fail eq_path eq_text read write erase get values lookup canonical cut to_lower
    trim_space trim trim_left trim_right has_prefix has_suffix trim_prefix set delete
stored_test = refl
