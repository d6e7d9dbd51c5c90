-- ===== src/Exchange/Tests.antt =====
-- The header of a document of three bytes.
use n0ding.Prelude.{ℕ, pos, some, List, [], codes, length, ◌≡◌, arith}
use n0ding.Cache.Put.{content_length}
use n0ding.Exchange.{length_header}
use n0ding.Exchange.Lengths.{content_length-length_header}

abbrev document : List ℕ
document = codes "{}\n"

content_length-length_header_example :
    content_length (length_header document []) ≡ some (pos (length document))
content_length-length_header_example =
    content_length-length_header document [] (ground arith) (ground arith)
