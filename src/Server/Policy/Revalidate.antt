-- ===== src/Server/Policy/Revalidate.antt =====
-- A client that sends back what it was told of a file: `etag` and `http_date` against
-- `is_not_modified`.
use statika.Prelude.{
  refl, true, false, none, some, [], ◌∷◌, ◌≡◌, arith, if◌then◌else◌, ℕ, Bool, is_empty, ◌++◌, any,
  ◌==◌, ◌&&◌, ◌||◌, ap, subst, sym, ◌∙◌, drop, ◌↔◌, ◌<◌, ◌≤◌,
}
use statika.Prelude.Bytes.{
  trim, Text, trim_end, is_whitespace, strip_prefix, equal, trim_by, trim_start, codes, equal_iff,
}
use statika.Http.Response.{is_match, if_none_match_matches}
use statika.Server.Policy.{
  etag, Metadata, hex_i64, is_not_modified, not_modified_by, is_unmodified_since,
}
use statika.Prelude.Hex.{to_hex-free}
use statika.Prelude.Split.{join, split_free}
use statika.Server.Policy.Etag.{IsStat, etag-join, free-append, parts, word, etag-injective}
use statika.Http.Types.{Request}
use statika.Prelude.Radix.{to_hex}
use statika.Prelude.Int.{ℤ, pos, negsuc, leb_ℤ}
use statika.Http.Date.{parse_http_date, http_date}
use statika.Http.Date.Format.{parse_http_date-http_date}

is_empty-append1 : (w : Text) (c : ℕ) → is_empty (w ++ c ∷ []) ≡ false
is_empty-append1 [] c = refl
is_empty-append1 (d ∷ w) c = refl

-- A trim at the end keeps a text whose last character is not blank.
trim_end-append1 :
    (p : ℕ → Bool) (w : Text) (c : ℕ) → p c ≡ false → trim_end p (w ++ c ∷ []) ≡ w ++ c ∷ []
unfolding trim_end
trim_end-append1 p [] c h = rw h refl
trim_end-append1 p (d ∷ w) c h =
    rw (trim_end, trim_end-append1 p w c h, is_empty-append1 w c) (go (p d))
  where
    go : (b : Bool) → (if b && false then [] else d ∷ (w ++ c ∷ [])) ≡ d ∷ (w ++ c ∷ [])
    go true = refl
    go false = refl

-- A tag up to its last quote.
abbrev etag_front : Metadata → Text
etag_front metadata =
    codes "\""
    ++ to_hex metadata.ino
    ++ codes "-"
    ++ to_hex metadata.len
    ++ codes "-"
    ++ hex_i64 metadata.mtime
    ++ codes "-"
    ++ hex_i64 metadata.mtime_nsec

trim-etag : (metadata : Metadata) → trim (etag metadata) ≡ etag metadata
unfolding trim etag is_whitespace trim_by trim_start
trim-etag metadata = trim_end-append1 is_whitespace (etag_front metadata) 34 refl

comma_free : (metadata : Metadata) → any (λ c. c == b',') (etag metadata) ≡ false
unfolding join
comma_free metadata =
    let hex = λ (n : ℕ). to_hex-free b',' n (omega arith) in
    ap (any (λ c. c == b',')) (etag-join metadata)
    ∙ free-append b',' (34 ∷ to_hex metadata.ino) _ (hex metadata.ino) (
        free-append b',' (to_hex metadata.len) _ (hex metadata.len) (
          free-append b',' (to_hex (word metadata.mtime)) _ (hex (word metadata.mtime)) (
            free-append b',' (to_hex (word metadata.mtime_nsec)) _ (hex (word metadata.mtime_nsec))
              refl)))

-- The tests on one candidate that is itself a tag.
is_match-quoted : (sent now : Text) → is_match now (34 ∷ sent) ≡ equal (34 ∷ sent) now
unfolding is_match strip_prefix equal
is_match-quoted sent now = go (equal (34 ∷ sent) now)
  where
    go : (b : Bool) → (false || b || false) ≡ b
    go true = refl
    go false = refl

is_match-etag : (sent : Metadata) (now : Text) → is_match now (etag sent) ≡ equal (etag sent) now
unfolding join
is_match-etag sent now =
    subst (λ t. is_match now t ≡ equal t now) (sym (etag-join sent))
      (is_match-quoted (drop 1 (join b'-' (parts sent))) now)

any_one : (b : Bool) → (b || false) ≡ b
any_one true = refl
any_one false = refl

matches-etag :
    (sent now : Metadata)
    → if_none_match_matches (some (etag sent)) (etag now) ≡ equal (etag sent) (etag now)
unfolding if_none_match_matches
matches-etag sent now =
    rw (split_free (λ c. c == b',') (etag sent) (comma_free sent), trim-etag sent)
      (any_one _ ∙ is_match-etag sent (etag now))

module _ (sent now : Metadata) (was : IsStat sent) (is : IsStat now) (request : Request) where
  -- For a client that asks with the tag of a file, `is_not_modified` holds exactly when the file
  -- that it would be sent has the inode, the length and both parts of the time of change that the
  -- tag was made from, whatever numbers `fstat` returned for the two.
  pub is_not_modified-etag :
      request.if_none_match ≡ some (etag sent)
      → (is_not_modified request (etag now) now.mtime ≡ true) ↔ (sent ≡ now)
  unfolding is_not_modified not_modified_by
  is_not_modified-etag e =
      let same = matches-etag sent now in
      (
        λ h.
            etag-injective sent now was is
              ((equal_iff (etag sent) (etag now)).0 (sym same ∙ (rw e at h))),
        λ h. rw e (same ∙ (equal_iff (etag sent) (etag now)).1 (ap etag h)),
      )

-- For a client that asks with the date of a file, as the server prints it from 1970 to 9999, and
-- with no tag, `is_not_modified` holds exactly when the file that it would be sent was changed in
-- 1970 or later and, by the second, not after that date.
pub is_not_modified-http_date :
    (sent : ℕ) (now : ℤ) (request : Request) (tag : Text)
    → sent < 253402300800
    → request.if_none_match ≡ none
    → request.if_modified_since ≡ parse_http_date (http_date (pos sent))
    → (is_not_modified request tag now ≡ true) ↔ ((n : ℕ) × (now ≡ pos n) × (n ≤ sent))
unfolding is_not_modified not_modified_by is_unmodified_since
is_not_modified-http_date sent now request tag h e since =
    let read = since ∙ parse_http_date-http_date sent h in
    (λ m. go now (rw (e, read) at m), λ (n, same, l). rw (e, read, same) (ground arith))
  where
    go :
        (z : ℤ)
        → (leb_ℤ (pos 0) z && leb_ℤ z (pos sent)) ≡ true
        → (n : ℕ) × (z ≡ pos n) × (n ≤ sent)
    go (pos n) m = (n, refl, ground arith)
    go (negsuc n) m = absurd (ground arith)
