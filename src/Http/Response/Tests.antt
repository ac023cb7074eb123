-- ===== src/Http/Response/Tests.antt =====
-- A response head.
use statika.Prelude.{refl, true, false, some, [], ◌∷◌, ◌≡◌, any, map, List, ◌==◌, ◌++◌}
use statika.Prelude.Bytes.{Text, codes, split_on}
use statika.Prelude.Int.{pos}
use statika.Http.Types.{Status}
use statika.Http.Response.{response_head, content_type, has_fingerprint, if_none_match_matches}
use statika.Http.Response.Lines.{IsLine, line_bytes, response_lines, response_head-lines}

css_found : content_type (codes "a" ∷ codes "site.min.CSS" ∷ []) ≡ codes "text/css; charset=utf-8"
unfolding content_type
css_found = refl

fingerprint_found : has_fingerprint (codes "app-0123abCD.js" ∷ []) ≡ true
unfolding has_fingerprint
fingerprint_found = refl

weak_tag_matches : if_none_match_matches (some (codes "\"a\", W/\"b\"")) (codes "\"b\"") ≡ true
unfolding if_none_match_matches
weak_tag_matches = refl

abbrev no_store : List (Text × Text)
no_store = (codes "Cache-Control", codes "no-store") ∷ []

plain_line : (t : Text) → any (λ c. c == 10) t ≡ false → IsLine t
plain_line t h = record { no_line_feed = h }

response_head-lines_example :
    split_on 10 (response_head (pos 0) Status.not_found 10 (some (codes "text/plain")) no_store)
    ≡ map line_bytes
        (response_lines (pos 0) Status.not_found 10 (some (codes "text/plain")) no_store)
      ++ [] ∷ []
response_head-lines_example =
    response_head-lines (pos 0) Status.not_found 10 (some (codes "text/plain")) no_store
      (plain_line (codes "text/plain") refl)
      ((plain_line (codes "Cache-Control") refl, plain_line (codes "no-store") refl), tt)
