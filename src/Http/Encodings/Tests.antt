-- ===== src/Http/Encodings/Tests.antt =====
-- Accept-Encoding headers.
use statika.Prelude.{refl, [], ◌∷◌, ◌≡◌, arith, List, true, false, none, some, map}
use statika.Prelude.Bytes.{codes}
use statika.Http.Encodings.{accepted_encodings}
use statika.Prelude.Split.{join}
use statika.Http.Encodings.Spelling.{tenths, hundredths}
use statika.Http.Encodings.Items.{Item, brotli, gzip, wildcard}
use statika.Http.Encodings.Preferences.{
  header_text, last_weight, accepted_encodings-header_text, named_else_wildcard, preference_of,
}

-- An explicit weight stands before that of the wildcard.
wildcard_read :
    accepted_encodings (codes "gzip;q=0.5, *;q=0, br;q=2") ≡ record { br_q = 0; gzip_q = 500 }
unfolding accepted_encodings
wildcard_read = refl

-- `Gzip ;Q=0.5 ,*;q=0.25,br`
abbrev preferences : List Item
preferences =
    record {
      before = [];
      coding = gzip;
      flags = true ∷ [];
      after = false ∷ [];
      parameter =
          some (record { between = []; upper = true; quality = tenths 5; behind = false ∷ [] });
    }
    ∷ record {
      before = [];
      coding = wildcard;
      flags = [];
      after = [];
      parameter =
          some (record { between = []; upper = false; quality = hundredths 25; behind = [] });
    }
    ∷ record { before = []; coding = brotli; flags = []; after = []; parameter = none }
    ∷ []

preferences_text : header_text preferences ≡ codes "Gzip ;Q=0.5 ,*;q=0.25,br"
unfolding join
preferences_text = refl

accepted_encodings-header_text_example : accepted_encodings (header_text preferences) ≡ record {
  br_q =
      named_else_wildcard
        (last_weight brotli (map preference_of preferences))
        (last_weight wildcard (map preference_of preferences));
  gzip_q =
      named_else_wildcard
        (last_weight gzip (map preference_of preferences))
        (last_weight wildcard (map preference_of preferences));
}
accepted_encodings-header_text_example =
    accepted_encodings-header_text preferences (omega arith, (omega arith, (tt, tt)))
