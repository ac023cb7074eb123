-- ===== src/Server/Policy/Tests.antt =====
-- Paths, tags and log lines.
use statika.Prelude.{refl, true, false, [], ◌∷◌, ◌≡◌, ◌↔◌, none, some, arith, ℕ, ◌≤◌}
use statika.Prelude.Bytes.{Text, codes}
use statika.Server.Policy.{contains_denied_dotfile, escape_json, Metadata, is_not_modified, etag}
use statika.Server.Policy.Dotfiles.{IsVisible, contains_denied_dotfile-IsVisible}
use statika.Server.Policy.Json.{Reads, escape_json-Reads}
use statika.Http.Types.{Request, Method}
use statika.Server.Policy.Etag.{IsStat}
use statika.Prelude.Int.{pos, negsuc}
use statika.Server.Policy.Revalidate.{is_not_modified-etag, is_not_modified-http_date}
use statika.Http.Date.{parse_http_date, http_date}

well_known_passes : contains_denied_dotfile (codes ".well-known" ∷ codes "a" ∷ []) ≡ false
unfolding contains_denied_dotfile
well_known_passes = refl

inner_denied : contains_denied_dotfile (codes "a" ∷ codes ".well-known" ∷ []) ≡ true
unfolding contains_denied_dotfile
inner_denied = refl

contains_denied_dotfile-IsVisible_example :
    (contains_denied_dotfile (codes ".well-known" ∷ codes "a" ∷ []) ≡ false)
    ↔ IsVisible (codes ".well-known" ∷ codes "a" ∷ [])
contains_denied_dotfile-IsVisible_example =
    contains_denied_dotfile-IsVisible (codes ".well-known" ∷ codes "a" ∷ [])

abbrev awkward : Text
awkward = b'a' ∷ 34 ∷ 92 ∷ 10 ∷ 27 ∷ []

escape_json-Reads_example : Reads (escape_json awkward) awkward
escape_json-Reads_example = escape_json-Reads awkward

abbrev old_page : Metadata
old_page = record { ino = 7; len = 3; mtime = pos 5; mtime_nsec = pos 0 }

abbrev new_page : Metadata
new_page = record { ino = 7; len = 3; mtime = negsuc 4; mtime_nsec = pos 12 }

old_page-IsStat : IsStat old_page
old_page-IsStat = record {
  ino_bound = omega arith;
  len_bound = omega arith;
  mtime_bound = omega arith;
  nsec_bound = omega arith;
}

new_page-IsStat : IsStat new_page
new_page-IsStat = record {
  ino_bound = omega arith;
  len_bound = omega arith;
  mtime_bound = omega arith;
  nsec_bound = omega arith;
}

abbrev asks_again : Request
asks_again = record {
  method = Method.get;
  target = codes "/";
  accepted_encodings = record { br_q = 0; gzip_q = 0 };
  if_none_match = some (etag old_page);
  if_modified_since = none;
}

is_not_modified-etag_example :
    (is_not_modified asks_again (etag new_page) new_page.mtime ≡ true) ↔ (old_page ≡ new_page)
is_not_modified-etag_example =
    is_not_modified-etag old_page new_page old_page-IsStat new_page-IsStat asks_again refl

abbrev asks_by_date : Request
asks_by_date = record asks_again {
  if_none_match = none;
  if_modified_since = parse_http_date (http_date (pos 784111777));
}

is_not_modified-http_date_example :
    (is_not_modified asks_by_date (codes "\"t\"") (pos 784111778) ≡ true)
    ↔ ((n : ℕ) × (pos 784111778 ≡ pos n) × (n ≤ 784111777))
is_not_modified-http_date_example =
    is_not_modified-http_date 784111777 (pos 784111778) asks_by_date (codes "\"t\"") (omega arith)
      refl refl
