-- ===== src/Http/Target/Tests.antt =====
-- Targets, decoded.
use statika.Prelude.{
  refl, true, false, [], inr, ok, err, ◌∷◌, ◌≡◌, arith, ℕ, All, ◌≢◌, ◌++◌, Bool, ◌==◌, ◌||◌,
}
use statika.Prelude.Bytes.{codes}
use statika.Http.Target.{decode_target}
use statika.Http.Types.{DecodedPath, RequestError}
use statika.Http.Target.Safe.{IsSafeComponent, decode_target-IsSafe}
use statika.Http.Target.RoundTrip.{encode_path, decode_target-encode_path, query}
use statika.Http.Bytes.{hex}

abbrev app_js : DecodedPath
app_js = record { components = codes "assets" ∷ codes "a p.js" ∷ []; trailing_slash = false }

app_js_decoded : decode_target (codes "/assets//a%20p.js?v=/../") ≡ ok app_js
unfolding decode_target hex
app_js_decoded = refl

-- An escaped parent directory is refused.
parent_refused : decode_target (codes "/assets/%2e%2E/secret") ≡ err RequestError.bad_request
unfolding decode_target hex
parent_refused = refl

decode_target-IsSafe_example : All IsSafeComponent app_js.components
decode_target-IsSafe_example =
    decode_target-IsSafe (codes "/assets//a%20p.js?v=/../") app_js_decoded

-- Spaces are escaped.
abbrev no_space : ℕ → Bool
no_space b = b == b'a' || b == b'x'

no_space_plain : (b : ℕ) → no_space b ≡ true → (b ≢ b'%') × (b ≢ b'?')
no_space_plain b h = ground arith

two_names_safe : All IsSafeComponent (codes "a x" ∷ codes "x" ∷ [])
two_names_safe = (
  record {
    some_byte = λ e. cc;
    not_dot = λ e. cc;
    not_dot_dot = λ e. cc;
    bytes = (ground arith, (ground arith, (ground arith, tt)));
  },
  (
    record {
      some_byte = λ e. cc;
      not_dot = λ e. ground arith;
      not_dot_dot = λ e. cc;
      bytes = (ground arith, tt);
    },
    tt,
  ),
)

decode_target-encode_path_example :
    decode_target (encode_path no_space (codes "a x" ∷ codes "x" ∷ []) true ++ codes "?q")
    ≡ ok (record { components = codes "a x" ∷ codes "x" ∷ []; trailing_slash = true })
decode_target-encode_path_example =
    decode_target-encode_path no_space (codes "a x" ∷ codes "x" ∷ []) true no_space_plain (inr refl)
      ((omega arith, (omega arith, (omega arith, tt))), ((omega arith, tt), tt)) two_names_safe
      (query (codes "q"))
