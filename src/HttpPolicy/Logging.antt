-- ===== src/HttpPolicy/Logging.antt =====
-- internal/httppolicy/policy.go: what is shown of an upstream's URL and of an error in logs and on the
-- status page.
use n0ding.Prelude.{Option, none, some, [], ◌++◌, Text, codes}
use n0ding.Http.{Url}

-- PublicUpstreamURL, given URL.String.
unfoldable pub public_upstream_url : (Url → Text) → Option Url → Text
public_upstream_url show none = []
public_upstream_url show (some upstream) =
    show (record upstream { user = none; raw_query = []; fragment = [] })

-- An error as errors.As looks into it: it has no *url.Error, or the first one with its Op, its URL and
-- the error under it, which may be nil.
pub data Failure : Type 0 where
  plain : Text → Failure
  bare_url_error : Text → Text → Failure
  url_error : Text → Text → Failure → Failure

unfoldable pub safe_failure : Failure → Text
safe_failure (plain message) = message
safe_failure (bare_url_error op url) = op
safe_failure (url_error op url cause) = op ++ (codes ": " ++ safe_failure cause)

-- SafeError
unfoldable pub safe_error : Option Failure → Text
unfolding safe_failure
safe_error none = []
safe_error (some failure) = safe_failure failure
