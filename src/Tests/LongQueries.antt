-- ===== src/Tests/LongQueries.antt =====
-- More queries than a server's buffer has room for.
use nyan_sd.Base.{List, [], ◌∷◌, text}
use nyan_sd.Nyansd.{all, Query}
use nyan_sd.Nyansd.Discovery.Links.{Link, up}
use nyan_sd.Tests.Data.{alpha, repeated}

-- Eight queries with filters of 255 bytes: 2074 bytes in all.
abbrev long_queries : List Query
long_queries = repeated 8 (record { protocol = all; filter = repeated 255 b'x' })

abbrev links : List Link
links = up (text "192.168.0.7") [] (alpha ∷ []) ∷ []
