-- ===== src/Cache/Verified.antt =====
-- internal/cache/store.go: PutStreamVerified stores only what its verifier has accepted.
use n0ding.Prelude.{◌≤◌, ℤ, pos, pos_part, max_int64, true, Option, none, some, length, ◌≡◌}
use n0ding.Storage
use n0ding.Cache.Store.{Store}
use n0ding.Cache.Writer.{bytes_of}
use n0ding.Cache.Put.{Request, Answer, verified}

abbrev HasBound : Option ℤ → Type 0
HasBound none = Unit {0}
HasBound (some z) = pos_part z ≤ max_int64

-- What a stored body has been through, for a limit of the copy.
abbrev IsAccepted : Request → Answer → Type 0
IsAccepted q a =
    (verified q.verify (pos (length (bytes_of q.source.chunks))) (bytes_of q.source.chunks) ≡ true)
    × (a.downstream ≡ bytes_of q.source.chunks)
