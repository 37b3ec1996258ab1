-- ===== src/Cors/Tests.antt =====
-- A request from another origin.
use gargantua.Common.{
  ◌≡◌, ◌≢◌, ◌↔◌, refl, sym, ◌∙◌, ap, true, false, List, [], ◌∷◌, Bytes, codes, str_eq, strcase_eq,
  length, arith,
}
use gargantua.Http.{HttpHeader, skip_blanks, trim_end}
use gargantua.Response.{response_value}
use gargantua.Cors.{
  single_loop, header_single_value, next_item, list_loop, list_contains, origin_allowed,
  cors_prepare,
}
use gargantua.Cors.Allowed.{items, AnyOf, SameText, list_contains_iff}
use gargantua.Cors.Origin.{IsAllowed, cors_prepare-IsAllowed}

abbrev setting : Bytes
setting = codes "https://a.io , https://b.io"

abbrev from_b : List HttpHeader
from_b = record { name = codes "origin"; value = codes "https://b.io" } ∷ []

-- An item is found whole only.
list_contains-part :
    (list_contains setting (codes "https://b.io") true ≡ true)
    × (list_contains setting (codes "https://b") true ≡ false)
unfolding list_contains list_loop next_item skip_blanks trim_end str_eq
list_contains-part = (refl, refl)

list_contains_iff_example : (list_contains setting (codes "https://b.io") true ≡ true) ↔ (
    (codes "https://b.io" ≢ [])
    × AnyOf
        (λ item. SameText true (trim_end (skip_blanks item)) (codes "https://b.io"))
        (items setting))
list_contains_iff_example = list_contains_iff setting (codes "https://b.io") true

prepared : cors_prepare setting from_b [] ≡ (true, codes "https://b.io")
unfolding cors_prepare origin_allowed header_single_value single_loop list_contains list_loop
    next_item skip_blanks trim_end str_eq strcase_eq response_value
prepared = refl

changed : (cors_prepare setting from_b []).1 ≢ []
changed e = omega (arith, ap length (sym (ap (λ r. r.1) prepared) ∙ e))

cors_prepare-IsAllowed_example : IsAllowed setting from_b (cors_prepare setting from_b []).1
cors_prepare-IsAllowed_example = cors_prepare-IsAllowed setting from_b [] changed
