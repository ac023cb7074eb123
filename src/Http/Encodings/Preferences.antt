-- ===== src/Http/Encodings/Preferences.antt =====
-- `accepted_encodings` on a header that states preferences: a client's list of codings and weights.
use statika.Prelude.{
  refl, true, false, none, some, [], ◌∷◌, ◌≡◌, arith, if◌then◌else◌, ℕ, List, Bool, map, All,
  Option, ◌∙◌, ap,
}
use statika.Prelude.Split.{Free, join, split-join}
use statika.Http.Encodings.Items.{
  Coding, brotli, gzip, wildcard, identity, token, Item, IsItem, item_text, weight_of,
  read_item-item_text, item_text-Free, eq_ignore_ascii_case-with_case, is_empty-with_case,
  with_case_wildcard, with_case_identity,
}
use statika.Http.Encodings.Spelling.{with_case}
use statika.Http.Encodings.{
  Weights, read_item, assign, weigh, weight, no_weights, total, accepted_encodings,
}
use statika.Prelude.Bytes.{Bytes, equal, codes, split, to_ascii_lowercase}

abbrev pub header_text : List Item → Bytes
header_text items = join b',' (map item_text items)

abbrev pub preference_of : Item → Coding × ℕ
preference_of item = (item.coding, weight_of item.parameter)

-- The effect of a preference on the weights.
abbrev prefer : Weights → Coding × ℕ → Weights
prefer w (brotli, q) = record w { br = some q }
prefer w (gzip, q) = record w { gzip = some q }
prefer w (wildcard, q) = record w { wildcard = some q }
prefer w (identity, q) = w

-- The tests on the name of an item, by its coding.
assign-name :
    (w : Weights) (flags : List Bool) (c : Coding) (q : ℕ)
    → assign w (with_case flags (token c), q) ≡ prefer w (c, q)
unfolding assign
assign-name w flags brotli q =
    rw
      (
        assign,
        is_empty-with_case flags brotli,
        eq_ignore_ascii_case-with_case flags brotli (codes "br"),
      )
      (unfold equal in unfold to_ascii_lowercase in refl)
assign-name w flags gzip q =
    rw
      (
        assign,
        is_empty-with_case flags gzip,
        eq_ignore_ascii_case-with_case flags gzip (codes "br"),
        eq_ignore_ascii_case-with_case flags gzip (codes "gzip"),
      )
      (unfold equal in unfold to_ascii_lowercase in refl)
assign-name w flags wildcard q =
    rw
      (
        assign,
        is_empty-with_case flags wildcard,
        eq_ignore_ascii_case-with_case flags wildcard (codes "br"),
        eq_ignore_ascii_case-with_case flags wildcard (codes "gzip"),
        with_case_wildcard flags,
      )
      (unfold equal in unfold to_ascii_lowercase in refl)
assign-name w flags identity q =
    rw
      (
        assign,
        is_empty-with_case flags identity,
        eq_ignore_ascii_case-with_case flags identity (codes "br"),
        eq_ignore_ascii_case-with_case flags identity (codes "gzip"),
        with_case_identity flags,
      )
      (unfold equal in unfold to_ascii_lowercase in refl)

-- The weight that a header gives to a coding by its name: the last one counts.
abbrev pub is_coding : Coding → Coding → Bool
is_coding brotli brotli = true
is_coding gzip gzip = true
is_coding wildcard wildcard = true
is_coding identity identity = true
is_coding _ _ = false

abbrev or_else : Option ℕ → Option ℕ → Option ℕ
or_else (some q) o = some q
or_else none o = o

abbrev pub last_weight : Coding → List (Coding × ℕ) → Option ℕ
last_weight c [] = none
last_weight c ((d, q) ∷ items) =
    or_else (last_weight c items) (if is_coding c d then some q else none)

weigh-preferences :
    (w : Weights) (items : List Item)
    → All IsItem items
    → weigh w (map item_text items) ≡ record {
      br = or_else (last_weight brotli (map preference_of items)) w.br;
      gzip = or_else (last_weight gzip (map preference_of items)) w.gzip;
      wildcard = or_else (last_weight wildcard (map preference_of items)) w.wildcard;
    }
unfolding weigh
weigh-preferences w [] h = refl
weigh-preferences w (item ∷ items) h =
    ap (λ read. weigh (assign w read) (map item_text items)) (read_item-item_text item h.0)
    ∙ ap (λ v. weigh v (map item_text items)) (assign-name w item.flags item.coding q)
    ∙ weigh-preferences (prefer w (preference_of item)) items h.1
    ∙ merge item.coding
  where
    q : ℕ
    q = weight_of item.parameter

    prefs : List (Coding × ℕ)
    prefs = map preference_of items

    merge :
        (d : Coding)
        → ◌≡◌ {A = Weights}
            (record {
              br = or_else (last_weight brotli prefs) (prefer w (d, q)).br;
              gzip = or_else (last_weight gzip prefs) (prefer w (d, q)).gzip;
              wildcard = or_else (last_weight wildcard prefs) (prefer w (d, q)).wildcard;
            })
            (record {
              br = or_else (last_weight brotli ((d, q) ∷ prefs)) w.br;
              gzip = or_else (last_weight gzip ((d, q) ∷ prefs)) w.gzip;
              wildcard = or_else (last_weight wildcard ((d, q) ∷ prefs)) w.wildcard;
            })
    merge brotli = ground arith
    merge gzip = ground arith
    merge wildcard = ground arith
    merge identity = ground arith

items_Free : (items : List Item) → All IsItem items → All (Free b',') (map item_text items)
items_Free [] h = tt
items_Free (item ∷ items) h = (item_text-Free item h.0, items_Free items h.1)

or_else-none : (o : Option ℕ) → or_else o none ≡ o
or_else-none none = refl
or_else-none (some q) = refl

accepted_encodings-weights :
    (items : List Item)
    → All IsItem items
    → accepted_encodings (header_text items) ≡ record {
      br_q =
          weight
            (last_weight brotli (map preference_of items))
            (last_weight wildcard (map preference_of items));
      gzip_q =
          weight
            (last_weight gzip (map preference_of items))
            (last_weight wildcard (map preference_of items));
    }
unfolding accepted_encodings
accepted_encodings-weights [] h = unfold join weigh assign read_item split in refl
accepted_encodings-weights (item ∷ items) h =
    let prefs : List (Coding × ℕ) = map preference_of (item ∷ items) in
    let pieces =
      split-join b',' (item_text item) (map item_text items) (item_text-Free item h.0)
        (items_Free items h.1) in
    ap (λ ws. total (weigh no_weights ws)) pieces
    ∙ ap total (weigh-preferences no_weights (item ∷ items) h)
    ∙ (λ i. record {
      br_q =
          weight (or_else-none (last_weight brotli prefs) i)
            (or_else-none (last_weight wildcard prefs) i);
      gzip_q =
          weight (or_else-none (last_weight gzip prefs) i)
            (or_else-none (last_weight wildcard prefs) i);
    })

-- The weight that names a coding, else that of the wildcard, else 0.
abbrev pub named_else_wildcard : Option ℕ → Option ℕ → ℕ
named_else_wildcard (some q) other = q
named_else_wildcard none (some q) = q
named_else_wildcard none none = 0

weight-named_else_wildcard : (q other : Option ℕ) → weight q other ≡ named_else_wildcard q other
weight-named_else_wildcard (some q) other = refl
weight-named_else_wildcard none (some q) = refl
weight-named_else_wildcard none none = refl

-- A header lists items between commas: `br`, `gzip`, `*` or `identity` in any letter case, with or
-- without a parameter `q` (in either case) behind a semicolon, and with any spaces and tabs around
-- the coding and around the parameter. The weight is spelled `0`, `0.` or `1`, as `1.` with up to
-- three zeros, or as `0.` with one to three digits; without a parameter it is 1. In thousandths,
-- `accepted_encodings` takes for `br` and for `gzip` the last weight that names the coding, else
-- the last weight of `*`, else 0.
pub accepted_encodings-header_text :
    (items : List Item)
    → All IsItem items
    → accepted_encodings (header_text items) ≡ record {
      br_q =
          named_else_wildcard
            (last_weight brotli (map preference_of items))
            (last_weight wildcard (map preference_of items));
      gzip_q =
          named_else_wildcard
            (last_weight gzip (map preference_of items))
            (last_weight wildcard (map preference_of items));
    }
accepted_encodings-header_text items h =
    let other = last_weight wildcard (map preference_of items) in
    accepted_encodings-weights items h ∙ (λ i. record {
      br_q = weight-named_else_wildcard (last_weight brotli (map preference_of items)) other i;
      gzip_q = weight-named_else_wildcard (last_weight gzip (map preference_of items)) other i;
    })
