-- ===== src/Pypi/Token.antt =====
-- internal/pypiproxy/proxy.go: the private index changes only for a POST with the token.
use n0ding.Prelude.{
  true, false, not, ◌&&◌, ◌||◌, Option, none, some, [], ◌∷◌, ◌++◌, Text, codes, eq_text,
  eq_text_iff, has_prefix, ◌==◌, ==_iff, cut, to_lower, ◌≡◌, ◌≢◌, ◌⊎◌, inl, inr, refl, ap, ◌∙◌,
  arith, Bool-cases, Option-cases, ℕ,
}
use n0ding.Http.{get}
use n0ding.Exchange.{Request, Response}
use n0ding.Pypi.Proxy.{Proxy, count_request}
use n0ding.Pypi.Publish.{serve_upload, authorized_upload, credentials_match, matches, password}
use n0ding.Pypi.Serve.{World}
use n0ding.Pypi.Handler.{serve_http, counted_range}
use n0ding.Pypi.Access.{serve_simple-disk, serve_file-disk, serve_local_file-disk}

-- The header carries the token, as a bearer token or as the password of basic authentication.
abbrev pub CarriesToken : (Text → Option Text) → Text → Text → Type 0
CarriesToken decode token header =
    (token ≢ [])
    × ((scheme : Text) × (credentials : Text) × (header ≡ scheme ++ 32 ∷ credentials)
        × (((to_lower scheme ≡ codes "bearer") × (credentials ≡ token))
            ⊎ ((to_lower scheme ≡ codes "basic")
                × ((user : Text) × (decode credentials ≡ some (user ++ b':' ∷ token))))))

abbrev front_of : Option (Text × Text) → Text
front_of none = []
front_of (some (a, b)) = a

abbrev back_of : Option (Text × Text) → Text
back_of none = []
back_of (some (a, b)) = b

join : ℕ → Option (Text × Text) → Text
join c o = front_of o ++ c ∷ back_of o

-- What is cut is joined to the same text again.
join-cut : (c : ℕ) (s a b : Text) → cut c s ≡ some (a, b) → s ≡ a ++ c ∷ b
unfolding cut join
join-cut c [] a b e = absurd (cc)
join-cut c (d ∷ s) a b e = elim (Bool-cases (d == c)) [
  | inl same ↦ rw ((==_iff d c).0 same) (ap (join c) ((rw same at e)))
  | inr other ↦ elim (Option-cases (cut c s)) [
    | inl n ↦ absurd (cc ((rw (other, n) at e)))
    | inr ((a', b'), k) ↦
        ap (λ t. d ∷ t) (join-cut c s a' b' k) ∙ ap (join c) ((rw (other, k) at e))
  ]
]

option_inj : {s t : Text} → some s ≡ some t → s ≡ t
option_inj e = ap (λ o. elim o [ none ↦ [] | some a ↦ a ]) e

matches_sound : (token : Text) (o : Option Text) → matches token o ≡ true → o ≡ some token
matches_sound token none h = absurd (cc)
matches_sound token (some provided) h = ap some ((eq_text_iff provided token).0 (ground (arith, h)))

password_sound :
    (o : Option Text) (token : Text)
    → password o ≡ some token
    → (user : Text) × (o ≡ some (user ++ b':' ∷ token))
password_sound none token h = absurd (cc)
password_sound (some decoded) token h = elim (Option-cases (cut b':' decoded)) [
  | inl n ↦ absurd (cc ((rw n at h)))
  | inr ((user, rest), k) ↦
      let same : rest ≡ token = option_inj (rw k at h) in
      (user, ap some (join-cut b':' decoded user rest k ∙ rw same refl))
]

credentials_match_sound :
    (decode : Text → Option Text) (token header scheme credentials : Text)
    → token ≢ []
    → header ≡ scheme ++ 32 ∷ credentials
    → credentials_match decode token (some (scheme, credentials)) ≡ true
    → CarriesToken decode token header
credentials_match_sound decode token header scheme credentials some_token e h =
    elim (Bool-cases (eq_text (to_lower scheme) (codes "bearer"))) [
      | inl bearer ↦ (
        some_token,
        (
          scheme,
          credentials,
          e,
          inl (
            (eq_text_iff _ _).0 bearer,
            option_inj (matches_sound token (some credentials) (rw bearer at h)),
          ),
        ),
      )
      | inr other ↦ elim (Bool-cases (eq_text (to_lower scheme) (codes "basic"))) [
        | inl basic ↦ (
          some_token,
          (
            scheme,
            credentials,
            e,
            inr (
              (eq_text_iff _ _).0 basic,
              password_sound (decode credentials) token
                  (matches_sound token _ (rw (other, basic) at h)),
            ),
          ),
        )
        | inr neither ↦ absurd (cc ((rw (other, neither) at h)))
      ]
    ]

authorized_upload-CarriesToken :
    (decode : Text → Option Text) (token header : Text)
    → authorized_upload decode token header ≡ true
    → CarriesToken decode token header
unfolding authorized_upload
authorized_upload-CarriesToken decode token header h =
    elim (Bool-cases (eq_text token [] || eq_text header [])) [
      | inl e ↦ absurd (cc ((rw e at h)))
      | inr e ↦ elim (Option-cases (cut 32 header)) [
        | inl n ↦ absurd (cc ((rw (e, n) at h)))
        | inr ((scheme, credentials), k) ↦
            credentials_match_sound decode token header scheme credentials
              (λ empty. absurd (ground (arith, e, (eq_text_iff token []).1 empty)))
              (join-cut 32 header scheme credentials k) (rw (e, k) at h)
      ]
    ]

range-disk : (q : Request) (p : Proxy) → (counted_range q p).disk ≡ p.disk
range-disk q p = elim (Bool-cases (eq_text (get q.header (codes "Range")) [])) [
  | inl e ↦ rw e refl
  | inr e ↦ rw e refl
]

-- The part of ServeHTTP that is no upload.
other_requests-disk :
    (world : World) (q : Request) (p : Proxy) (w : Response)
    → eq_text q.url_path p.upload_path ≡ false
    → (serve_http world q p w).0.disk ≡ p.disk
unfolding serve_http
other_requests-disk world q p w elsewhere =
    elim (Bool-cases (has_prefix q.url_path p.package_path)) [
      | inl private ↦
          rw (elsewhere, private)
            (serve_local_file-disk world.urls world.codecs world.disk q (count_request p) w)
      | inr outside ↦
          elim (Bool-cases
            (not (eq_text q.method (codes "GET")) && not (eq_text q.method (codes "HEAD")))) [
              | inl writes ↦ rw (elsewhere, outside, writes) refl
              | inr reads ↦ elim (Bool-cases (has_prefix q.url_path p.path)) [
                | inl page ↦
                    rw (elsewhere, outside, reads, page)
                      (serve_simple-disk world q (counted_range q (count_request p)) w
                        ∙ range-disk q (count_request p))
                | inr no_page ↦ elim (Bool-cases (has_prefix q.url_path p.file_path)) [
                  | inl file ↦
                      rw (elsewhere, outside, reads, no_page, file)
                        (serve_file-disk world q (counted_range q (count_request p)) w
                          ∙ range-disk q (count_request p))
                  | inr no_file ↦
                      rw (elsewhere, outside, reads, no_page, no_file)
                        (range-disk q (count_request p))
                ]
              ]
            ]
    ]

-- A request leaves the private files as they are, unless it is a POST to the upload path whose
-- Authorization field carries the configured token, which is not empty.
pub private_files_need_token :
    (world : World) (q : Request) (p : Proxy) (w : Response)
    → ((serve_http world q p w).0.disk ≡ p.disk)
      ⊎ ((q.url_path ≡ p.upload_path)
          × (q.method ≡ codes "POST")
          × CarriesToken world.codecs.decode_base64 p.publish_token
              (get q.header (codes "Authorization")))
unfolding serve_http serve_upload
private_files_need_token world q p w = elim (Bool-cases (eq_text q.url_path p.upload_path)) [
  | inr elsewhere ↦ inl (other_requests-disk world q p w elsewhere)
  | inl here ↦ elim (Bool-cases (eq_text q.method (codes "POST"))) [
    | inr other ↦ inl (rw (here, other) refl)
    | inl post ↦
        elim (Bool-cases (
          authorized_upload world.codecs.decode_base64 p.publish_token
            (get q.header (codes "Authorization")))) [
              | inr refused ↦ inl (rw (here, post, refused) refl)
              | inl allowed ↦ inr (
                (eq_text_iff _ _).0 here,
                (eq_text_iff _ _).0 post,
                authorized_upload-CarriesToken world.codecs.decode_base64 p.publish_token
                    (get q.header (codes "Authorization")) allowed,
              )
            ]
  ]
]
