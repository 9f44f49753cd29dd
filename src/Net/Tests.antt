-- ===== src/Net/Tests.antt =====
-- Endpoints.
use sockify.Prelude.{◌≡◌, refl, arith, [], ◌∷◌, ◌++◌, codes}
use sockify.Config.{Endpoint}
use sockify.Net.{parse_endpoint}
use sockify.Net.Endpoints.{parse_endpoint-plain, parse_endpoint-bracketed}
use sockify.Status.{ok}

abbrev nowhere : Endpoint
nowhere = record { host = []; port = [] }

parse_endpoint-plain_example :
    parse_endpoint (codes "localhost" ++ (58 ∷ codes "5900")) nowhere
    ≡ (ok, record { host = codes "localhost"; port = codes "5900" })
parse_endpoint-plain_example =
    parse_endpoint-plain (codes "localhost") (codes "5900") nowhere (omega arith) (omega arith)
      (omega arith) (omega arith) refl search

parse_endpoint-bracketed_example :
    parse_endpoint (91 ∷ (codes "::1" ++ (93 ∷ 58 ∷ codes "5900"))) nowhere
    ≡ (ok, record { host = codes "::1"; port = codes "5900" })
parse_endpoint-bracketed_example =
    parse_endpoint-bracketed (codes "::1") (codes "5900") nowhere (omega arith) (omega arith) search
