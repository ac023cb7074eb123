-- ===== src/Http/Target/Safe.antt =====
-- What a decoded path can hold.
use statika.Prelude.{
  ℕ, ◌≤◌, ◌≡◌, ◌≢◌, false, not, List, [], ◌∷◌, inl, inr, arith, ◌==◌, Bool-cases, ok, >>=-eq-ok,
  fail_if, fail_if-eq-ok, ok-injective, subst, All,
}
use statika.Prelude.Bytes.{Bytes, codes, equal_iff, split_on, starts_with}
use statika.Prelude.Split.{Free, split_pieces, split_bytes}
use statika.Http.Types.{RequestError, DecodedPath}
use statika.Http.Target.{
  percent_decode, is_dots, path_components, path_of, has_bad_byte, decode_target,
}

-- A byte that may stand in a component: printable, and neither `/` nor `\`.
abbrev pub IsPathByte : ℕ → Type 0
IsPathByte b = (32 ≤ b) × (b ≢ 127) × (b ≢ b'/') × (b ≢ 92)

-- A name that does not leave the directory that it is opened in.
pub record IsSafeComponent (component : Bytes) : Type 0 where
  pub some_byte : component ≢ []
  pub not_dot : component ≢ codes "."
  pub not_dot_dot : component ≢ codes ".."
  pub bytes : All IsPathByte component

good_bytes :
    (decoded : Bytes)
    → has_bad_byte decoded ≡ false
    → All (λ b. (32 ≤ b) × (b ≢ 127) × (b ≢ 92)) decoded
unfolding has_bad_byte
good_bytes [] h = tt
good_bytes (c ∷ cs) h = ground (arith, good_bytes cs)

IsPathByte-All :
    (w : Bytes) → All (λ b. (32 ≤ b) × (b ≢ 127) × (b ≢ 92)) w → Free b'/' w → All IsPathByte w
IsPathByte-All [] a h = tt
IsPathByte-All (c ∷ cs) a h = (ground arith, IsPathByte-All cs a.1 (ground arith))

safe_component :
    (w : Bytes)
    → w ≢ []
    → is_dots w ≡ false
    → All (λ b. (32 ≤ b) × (b ≢ 127) × (b ≢ 92)) w
    → Free b'/' w
    → IsSafeComponent w
unfolding is_dots
safe_component w ne d a h = record {
  some_byte = ne;
  not_dot = λ e. ground (arith, equal_iff w (codes "."));
  not_dot_dot = λ e. ground (arith, equal_iff w (codes ".."));
  bytes = IsPathByte-All w a h;
}

path_components-Safe :
    (ws : List Bytes) {components : List Bytes}
    → path_components ws ≡ ok components
    → All (All (λ b. (32 ≤ b) × (b ≢ 127) × (b ≢ 92))) ws
    → All (Free b'/') ws
    → All IsSafeComponent components
unfolding path_components
path_components-Safe [] e a h = subst (All IsSafeComponent) (ok-injective e) tt
path_components-Safe ([] ∷ ws) e a h = path_components-Safe ws e a.1 h.1
path_components-Safe ((c ∷ cs) ∷ ws) e a h = elim (Bool-cases (is_dots (c ∷ cs))) [
  | inl d ↦ cc (rw d at e)
  | inr d ↦
      let (rest, later, whole) =
        >>=-eq-ok (path_components ws) (λ r. ok ((c ∷ cs) ∷ r)) (rw d at e) in
      subst (All IsSafeComponent) (ok-injective whole)
        (safe_component (c ∷ cs) (λ x. cc) d a.0 h.0, path_components-Safe ws later a.1 h.1)
]

-- Every component of a decoded target is the name of an entry of the directory that it is opened
-- in: not empty, not `.` or `..`, with no slash, backslash, NUL or other control byte, in whatever
-- way the target escapes them.
pub decode_target-IsSafe :
    (target : Bytes) {d : DecodedPath}
    → decode_target target ≡ ok d
    → All IsSafeComponent d.components
unfolding decode_target
decode_target-IsSafe target e =
    let (_, _, e₁) =
      >>=-eq-ok (fail_if (not (starts_with (codes "/") (path_of target))) RequestError.bad_request)
        _ e in
    let (decoded, _, e₂) = >>=-eq-ok (percent_decode (path_of target)) _ e₁ in
    let (_, good, e₃) = >>=-eq-ok (fail_if (has_bad_byte decoded) RequestError.bad_request) _ e₂ in
    let (components, found, e₄) = >>=-eq-ok (path_components (split_on b'/' decoded)) _ e₃ in
    let clean = good_bytes decoded (fail_if-eq-ok _ RequestError.bad_request good) in
    let safe =
      path_components-Safe (split_on b'/' decoded) found
        (split_bytes _ (λ c. c == b'/') decoded clean) (split_pieces (λ c. c == b'/') decoded) in
    subst (λ (d : DecodedPath). All IsSafeComponent d.components) (ok-injective e₄) safe
