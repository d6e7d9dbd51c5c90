-- ===== src/Exchange.antt =====
-- What the three proxies (internal/npmproxy, internal/ociproxy, internal/pypiproxy) share: a request,
-- what it meets, and the response that is written.
pub mod Lengths
mod Tests
use n0ding.Prelude.{
  ℕ, zero, suc, ◌+◌, ◌/◌, ◌%◌, ◌^◌, ℤ, pos, negsuc, Bool, true, false, Option, none, some, List, [],
  ◌∷◌, ◌++◌, Text, codes, eq_text, if◌then◌else◌, take, ◌==◌, length, leb,
}
use n0ding.Http.{Header, set}
use n0ding.Cache.Naming.{Metadata, Platform}
use n0ding.Cache.Store.{Entry, Outcome}
use n0ding.Cache.Writer.{Chunk, Source, bytes_of}
use n0ding.Cache.Commit.{Session}
use n0ding.Cache.Put
use n0ding.Cache.Put.{Answer, put_stream_verified}

pub record Request : Type 0 where
  pub method : Text
  pub url_path : Text
  pub escaped_path : Text
  pub raw_query : Text
  pub header : Header

-- The upstream's response. Its body comes in chunks, each with what the client takes of it.
pub record Incoming : Type 0 where
  pub status : ℤ
  pub header : Header
  pub body : Source

-- The result of http.NewRequestWithContext and client.Do.
pub data Reply : Type 0 where
  not_created no_response : Reply
  answered : Incoming → Reply

-- The calls of the client in ServeHTTP.
pub data Attempt : Type 0 where
  first_check second_check fetch : Attempt

-- What a request meets: the upstream behind the client, url.Parse with the query that is put into its
-- result, SHA-256, mime.ParseMediaType, whether the request is canceled and whether its
-- context is done, how many bytes the client takes of what is written
-- in one piece (`none` for all), how io.Copy cuts a body, what PutStreamVerified meets, and what other
-- requests do to the store while this one waits for the lock of its key.
pub record Env : Type 0 where
  pub platform : Platform
  pub upstream : Attempt → Text → Text → Header → Reply
  pub parse_url : Text → Text → Option Text
  pub sum : List ℕ → List ℕ
  pub media_type : Text → Option Text
  pub canceled : Bool
  pub done : Bool
  pub hangup : Option ℕ
  pub chunks_of : List ℕ → List Chunk
  pub free_bytes : Option ℤ
  pub body_suffix : Text
  pub metadata_suffix : Text
  pub meanwhile : Session → Session

-- What has been written to the client: `error` is the message of http.Error.
pub record Response : Type 0 where
  pub header : Header
  pub status : Option ℤ
  pub body : List ℕ
  pub error : Option Text

abbrev pub bump : ℕ → ℕ
bump n = (n + 1) % 2 ^ 64

abbrev pub http_error : ℤ → Text → Response → Response
http_error status message w = record w { status = some status; error = some message }

-- Bytes that are written in one piece, as far as the client takes them.
abbrev taken_of : Option ℕ → List ℕ → List ℕ
taken_of none content = content
taken_of (some n) content = take n content

abbrev pub sent : Env → List ℕ → List ℕ
sent env content = taken_of env.hangup content

-- The entry, if lookup finds one with no error.
abbrev pub found_entry : Outcome → Option Entry
found_entry Outcome.miss = none
found_entry Outcome.failed = none
found_entry (Outcome.hit entry) = some entry

-- strconv.FormatInt of a number of at most `fuel` digits.
unfoldable pub digits_of : ℕ → ℕ → Text
digits_of zero n = []
digits_of (suc fuel) n =
    let rest = digits_of fuel (n / 10) in
    if n / 10 == 0 then (b'0' + n % 10) ∷ [] else rest ++ (b'0' + n % 10) ∷ []

unfoldable pub format_int : ℤ → Text
unfolding digits_of
format_int (pos n) = digits_of 20 n
format_int (negsuc n) = b'-' ∷ digits_of 20 (suc n)

-- Whether the client takes the whole body of a hit, so that the digest is verified.
abbrev pub takes_all : Option ℕ → List ℕ → Bool
takes_all none content = true
takes_all (some n) content = eq_text (take n content) content

-- io.ReadAll(io.LimitReader(body, limit+1)): `none` on an error.
abbrev pub read_body : ℕ → Source → Option (List ℕ)
read_body limit source =
    let content = bytes_of source.chunks in
    if leb (limit + 1) (length content)
    then some (take (limit + 1) content)
    else if source.fails
    then none
    else some content

abbrev put_request : Env → Text → Metadata → Source → Option (ℤ → List ℕ → Bool) → Put.Request
put_request env key metadata source verify = record {
  key = key;
  metadata = metadata;
  source = source;
  verify = verify;
  free_bytes = env.free_bytes;
  body_suffix = env.body_suffix;
  metadata_suffix = env.metadata_suffix;
}

-- PutStreamVerified on the store of a proxy, which has no reservation of its own.
abbrev pub put_entry :
    Env → Text → Metadata → Source → Option (ℤ → List ℕ → Bool) → Session → Answer
put_entry env key metadata source verify s =
    put_stream_verified env.platform (put_request env key metadata source verify) s.store
      s.controller

-- cache.Metadata with the fields that a caller sets.
abbrev pub new_metadata : ℤ → Header → Text → Metadata
new_metadata status headers digest = record {
  status = status;
  header = headers;
  stored_at = pos 0;
  content_bytes = pos 0;
  content_digest = digest;
  body_file = [];
}

-- A whole body as the source of PutBytes.
abbrev pub source_of : Env → List ℕ → Source
source_of env content = record { chunks = env.chunks_of content; fails = false }

abbrev pub length_header : List ℕ → Header → Header
length_header content h = set (codes "Content-Length") (format_int (pos (length content))) h
