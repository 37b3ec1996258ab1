-- ===== src/Response/Tests.antt =====
-- Runs of the response headers, and their theorems at a concrete response.
use gargantua.Common.{
  false, none, some, List, [], ◌∷◌, codes, ◌≡◌, refl, arith, strcase_eq, strcase_starts, contains,
  if◌then◌else◌, ◌&&◌, ltb, length, inl,
}
use gargantua.Response.{
  Response, wire_cap, response_token, response_value, is_reserved_header, is_among, index_of, put,
  accepts, response_header, response_location, response_status, response_write, write_loop,
  response_status_get,
}
use mathlib.Core.Path.{subst}
use gargantua.Response.Safe.{
  IsSafe, Call, header, location, status, perform_all, perform_all-IsSafe, find,
  find-response_header,
}
use gargantua.Response.Wire.{
  lines, count, sent_count, response_write-lines, response_write_fits, response_write_newlines,
}

abbrev empty : Response
empty = record { headers = []; status_override = 0 }

abbrev calls : List Call
calls =
    header (codes "X-Trace") (codes "one")
    ∷ location (codes "/users/1")
    ∷ header (codes "x-trace") (codes "two")
    ∷ header (codes "Vary") (codes "*")
    ∷ header (codes "X-Bad") (codes "a\r\nb")
    ∷ status 201
    ∷ []

abbrev after : Response
after = record {
  headers =
      record { name = codes "x-trace"; value = codes "two" }
      ∷ record { name = codes "Location"; value = codes "/users/1" }
      ∷ [];
  status_override = 201;
}

perform_all-calls : perform_all calls empty ≡ after
unfolding response_header response_location response_status accepts response_token response_value
    is_reserved_header is_among index_of put strcase_eq strcase_starts contains
perform_all-calls = refl

write-after :
    (response_write 2048 200 after ≡ some (codes "x-trace: two\r\nLocation: /users/1\r\n"))
    × (response_write 2048 404 after ≡ some (codes "x-trace: two\r\n"))
    × (response_write 14 404 after ≡ none)
    × (response_status_get 200 after ≡ 201)
unfolding response_write write_loop strcase_eq response_status_get
write-after = (refl, refl, refl, refl)

empty-IsSafe : IsSafe empty
empty-IsSafe = record { headers_safe = tt; distinct = tt; count = omega arith; status = inl refl }

perform_all-IsSafe_example : IsSafe (perform_all calls empty)
perform_all-IsSafe_example = perform_all-IsSafe calls empty empty-IsSafe

find-response_header_example :
    let (done, r) = response_header (codes "location") (codes "/") after in
    (find (codes "LOCATION") r.headers ≡ (
      if done && strcase_eq (codes "location") (codes "LOCATION")
      then some (codes "/")
      else find (codes "LOCATION") after.headers))
    × (r.status_override ≡ after.status_override)
    × (done ≡ false → r ≡ after)
find-response_header_example =
    find-response_header (codes "location") (codes "/") (codes "LOCATION") after

response_write-lines_example :
    response_write 14 404 after
    ≡ (if ltb (length (lines 404 after.headers)) 14 then some (lines 404 after.headers) else none)
response_write-lines_example = response_write-lines 14 404 after

response_write_fits_example :
    response_write wire_cap 404 (perform_all calls empty)
    ≡ some (lines 404 (perform_all calls empty).headers)
response_write_fits_example =
    response_write_fits 404 (perform_all calls empty) (perform_all-IsSafe calls empty empty-IsSafe)

after-IsSafe : IsSafe after
unfolding response_token response_value is_reserved_header is_among strcase_eq strcase_starts
    contains
after-IsSafe = subst IsSafe perform_all-calls (perform_all-IsSafe calls empty empty-IsSafe)

response_write_newlines_example :
    count b'\n' (codes "x-trace: two\r\nLocation: /users/1\r\n") ≡ sent_count 200 after.headers
response_write_newlines_example = response_write_newlines 2048 200 after after-IsSafe write-after.0
