-- ===== src/Http/Target/RoundTrip.antt =====
-- An encoder for targets, against `decode_target`.
use statika.Prelude.{
  ℕ, ◌+◌, ◌*◌, ◌/◌, ◌%◌, ◌<◌, ◌≡◌, ◌≢◌, refl, ap, ◌∙◌, Bool, true, false, List, [], ◌∷◌, ◌++◌, ◌⊎◌,
  inl, inr, arith, ◌==◌, ltb, if◌then◌else◌, Bool-cases, Result, ok, ◌>>=◌, any-append, All, some,
}
use mathlib.Core.List.{append-nil, append-eq-nil_iff}
use statika.Prelude.Bytes
use statika.Prelude.Bytes.{
  Bytes, codes, contains, equal, equal_iff, split_on, starts_with, ends_with,
}
use statika.Prelude.Split.{Free, split_free, split-append}
use statika.Http.Types.{RequestError}
use statika.Http.Bytes.{hex}
use statika.Http.Target.{
  percent_decode, is_dots, path_components, path_of, has_bad_byte, decode_target,
}
use statika.Http.Target.Safe.{IsPathByte, IsSafeComponent}

-- The digit of a number below 16.
abbrev pub hex_digit : ℕ → ℕ
hex_digit n = if ltb n 10 then n + 48 else n + 87

hex-hex_digit : (n : ℕ) → n < 16 → hex (hex_digit n) ≡ some n
unfolding hex
hex-hex_digit n h = ground arith

abbrev pub IsByte : ℕ → Type 0
IsByte b = b < 256

-- A client writes the bytes for which `plain` holds as they are, and escapes the others.
module _ (plain : ℕ → Bool) where
  abbrev pub encode : Bytes → Bytes
  encode [] = []
  encode (c ∷ cs) =
      if plain c then c ∷ encode cs else b'%' ∷ hex_digit (c / 16) ∷ hex_digit (c % 16) ∷ encode cs

  abbrev pub encode_path : List Bytes → Bool → Bytes
  encode_path [] true = b'/' ∷ []
  encode_path [] false = []
  encode_path (c ∷ cs) s = b'/' ∷ (encode c ++ encode_path cs s)

abbrev slashed : List Bytes → Bool → Bytes
slashed [] true = b'/' ∷ []
slashed [] false = []
slashed (c ∷ cs) s = b'/' ∷ (c ++ slashed cs s)

abbrev pub push : ℕ → Result RequestError Bytes → Result RequestError Bytes
push c r = do rest ← r; ok (c ∷ rest)

percent_decode-plain :
    (c : ℕ) (cs : Bytes) → c ≢ b'%' → percent_decode (c ∷ cs) ≡ push c (percent_decode cs)
unfolding percent_decode
percent_decode-plain c [] h = ground arith
percent_decode-plain c (d ∷ []) h = ground arith
percent_decode-plain c (d ∷ e ∷ cs) h = ground arith

percent_decode-escape :
    (c : ℕ) (cs : Bytes)
    → IsByte c
    → percent_decode (b'%' ∷ hex_digit (c / 16) ∷ hex_digit (c % 16) ∷ cs)
      ≡ push c (percent_decode cs)
unfolding percent_decode
percent_decode-escape c cs h =
    let e : c / 16 * 16 + c % 16 ≡ c = omega arith in
    rw (hex-hex_digit (c / 16) (omega arith), hex-hex_digit (c % 16) (omega arith), e) refl

-- What `plain` may hold of: not the escape mark, and not the start of the query.
abbrev pub IsPlain : (ℕ → Bool) → Type 0
IsPlain plain = (b : ℕ) → plain b ≡ true → (b ≢ b'%') × (b ≢ b'?')

module _ (plain : ℕ → Bool) (fits : IsPlain plain) where
  percent_decode-encode :
      (c rest : Bytes) {out : Bytes}
      → All IsByte c
      → percent_decode rest ≡ ok out
      → percent_decode (encode plain c ++ rest) ≡ ok (c ++ out)
  percent_decode-encode [] rest h e = e
  percent_decode-encode (b ∷ bs) rest h e = elim (Bool-cases (plain b)) [
    | inl p ↦
        rw p (
          percent_decode-plain b _ (fits b p).0 ∙ ap (push b) (percent_decode-encode bs rest h.1 e))
    | inr p ↦
        rw p (percent_decode-escape b _ h.0 ∙ ap (push b) (percent_decode-encode bs rest h.1 e))
  ]

  percent_decode-encode_path :
      (cs : List Bytes) (s : Bool)
      → All (All IsByte) cs
      → percent_decode (encode_path plain cs s) ≡ ok (slashed cs s)
  percent_decode-encode_path [] true h = unfold percent_decode in refl
  percent_decode-encode_path [] false h = unfold percent_decode in refl
  percent_decode-encode_path (c ∷ cs) s h =
      percent_decode-plain b'/' _ (omega arith)
      ∙ ap (push b'/') (percent_decode-encode c _ h.0 (percent_decode-encode_path cs s h.1))

  encode-no_query : (c : Bytes) → All IsByte c → Free b'?' (encode plain c)
  encode-no_query [] h = refl
  encode-no_query (b ∷ bs) h = ground (arith, fits b, encode-no_query bs h.1)

  encode_path-no_query :
      (cs : List Bytes) (s : Bool) → All (All IsByte) cs → Free b'?' (encode_path plain cs s)
  encode_path-no_query [] true h = refl
  encode_path-no_query [] false h = refl
  encode_path-no_query (c ∷ cs) s h = ground (
    arith,
    any-append (λ x. x == b'?') (encode plain c) (encode_path plain cs s),
    encode-no_query c h.0,
    encode_path-no_query cs s h.1,
  )

path_of-query : (path query : Bytes) → Free b'?' path → path_of (path ++ b'?' ∷ query) ≡ path
unfolding path_of
path_of-query path query h = rw (split-append (λ c. c == b'?') path b'?' query h refl, path_of)

path_of-Free : (path : Bytes) → Free b'?' path → path_of path ≡ path
unfolding path_of
path_of-Free path h = rw (split_free (λ c. c == b'?') path h, path_of)

is_dots-Safe : (w : Bytes) → IsSafeComponent w → is_dots w ≡ false
unfolding is_dots
is_dots-Safe w s =
    ground (arith, equal_iff w (codes "."), equal_iff w (codes ".."), s.not_dot, s.not_dot_dot)

Free-slash : (w : Bytes) → All IsPathByte w → Free b'/' w
Free-slash [] h = refl
Free-slash (c ∷ cs) h = ground (arith, Free-slash cs h.1)

path_components-cons :
    (w : Bytes) (ws cs : List Bytes)
    → IsSafeComponent w
    → path_components ws ≡ ok cs
    → path_components (w ∷ ws) ≡ ok (w ∷ cs)
unfolding path_components
path_components-cons [] ws cs s e = absurd (s.some_byte refl)
path_components-cons (b ∷ bs) ws cs s e = rw (is_dots-Safe (b ∷ bs) s, e) refl

path_components-slashed :
    (c : Bytes) (cs : List Bytes) (s : Bool)
    → IsSafeComponent c
    → All IsSafeComponent cs
    → path_components (split_on b'/' (c ++ slashed cs s)) ≡ ok (c ∷ cs)
path_components-slashed c [] false h a =
    rw (append-nil c, split_free (λ x. x == b'/') c (Free-slash c h.bytes))
      (path_components-cons c [] [] h (unfold path_components in refl))
path_components-slashed c [] true h a =
    rw (split-append (λ x. x == b'/') c b'/' [] (Free-slash c h.bytes) refl)
      (path_components-cons c _ [] h (unfold path_components Bytes.split in refl))
path_components-slashed c (d ∷ ds) s h a =
    rw (split-append (λ x. x == b'/') c b'/' (d ++ slashed ds s) (Free-slash c h.bytes) refl)
      (path_components-cons c _ (d ∷ ds) h (path_components-slashed d ds s a.0 a.1))

abbrev pub HasPath : List Bytes → Bool → Type 0
HasPath cs s = (cs ≢ []) ⊎ (s ≡ true)

components-slashed :
    (cs : List Bytes) (s : Bool)
    → HasPath cs s
    → All IsSafeComponent cs
    → path_components (split_on b'/' (slashed cs s)) ≡ ok cs
unfolding path_components Bytes.split
components-slashed [] true p h = refl
components-slashed [] false p h = absurd (ground arith)
components-slashed (c ∷ cs) s p h = path_components-slashed c cs s h.0 h.1

good-append :
    (w rest : Bytes)
    → All IsPathByte w
    → has_bad_byte rest ≡ false
    → has_bad_byte (w ++ rest) ≡ false
unfolding has_bad_byte
good-append [] rest h e = e
good-append (c ∷ cs) rest h e = ground (arith, good-append cs rest h.1)

good-slash : (rest : Bytes) → has_bad_byte rest ≡ false → has_bad_byte (b'/' ∷ rest) ≡ false
unfolding has_bad_byte
good-slash rest h = ground arith

good-slashed :
    (cs : List Bytes) (s : Bool) → All IsSafeComponent cs → has_bad_byte (slashed cs s) ≡ false
good-slashed [] true h = unfold has_bad_byte in refl
good-slashed [] false h = unfold has_bad_byte in refl
good-slashed (c ∷ cs) s h =
    good-slash _ (good-append c (slashed cs s) h.0.bytes (good-slashed cs s h.1))

ends_with-cons : (b c : ℕ) (cs : Bytes) → cs ≢ [] → ends_with b (c ∷ cs) ≡ ends_with b cs
unfolding ends_with
ends_with-cons b c [] h = absurd (h refl)
ends_with-cons b c (d ∷ ds) h = refl

ends_with-append : (b : ℕ) (w rest : Bytes) → rest ≢ [] → ends_with b (w ++ rest) ≡ ends_with b rest
ends_with-append b [] rest h = refl
ends_with-append b (c ∷ cs) rest h =
    ends_with-cons b c (cs ++ rest) (λ e. h (append-eq-nil_iff.0 e).1)
    ∙ ends_with-append b cs rest h

ends_with-Free : (b : ℕ) (w : Bytes) → Free b w → ends_with b w ≡ false
unfolding ends_with
ends_with-Free b [] h = refl
ends_with-Free b (c ∷ []) h = ground arith
ends_with-Free b (c ∷ d ∷ ds) h = ground (arith, ends_with-Free b (d ∷ ds))

module _ (plain : ℕ → Bool) where
  encode-ne-nil : (c : Bytes) → c ≢ [] → encode plain c ≢ []
  encode-ne-nil [] h = h
  encode-ne-nil (b ∷ bs) h = ground arith

  encode-no_slash : (c : Bytes) → All IsByte c → All IsPathByte c → Free b'/' (encode plain c)
  encode-no_slash [] h a = refl
  encode-no_slash (b ∷ bs) h a = ground (arith, encode-no_slash bs h.1 a.1)

  encode_path-ne-nil : (cs : List Bytes) (s : Bool) → HasPath cs s → encode_path plain cs s ≢ []
  encode_path-ne-nil [] s p = ground arith
  encode_path-ne-nil (c ∷ cs) s p = λ e. cc

  ends_with-encode_path :
      (cs : List Bytes) (s : Bool)
      → HasPath cs s
      → All (All IsByte) cs
      → All IsSafeComponent cs
      → ends_with b'/' (encode_path plain cs s) ≡ s
  ends_with-encode_path [] true p h a = unfold ends_with in refl
  ends_with-encode_path [] false p h a = absurd (ground arith)
  ends_with-encode_path (c ∷ []) false p h a = rw (append-nil (encode plain c)) (
      ends_with-cons b'/' b'/' (encode plain c) (encode-ne-nil c a.0.some_byte)
      ∙ ends_with-Free b'/' _ (encode-no_slash c h.0 a.0.bytes))
  ends_with-encode_path (c ∷ []) true p h a =
      ends_with-append b'/' (b'/' ∷ encode plain c) (b'/' ∷ []) (λ e. cc) ∙ unfold ends_with in refl
  ends_with-encode_path (c ∷ d ∷ ds) s p h a =
      ends_with-append b'/' (b'/' ∷ encode plain c) (encode_path plain (d ∷ ds) s) (λ e. cc)
      ∙ ends_with-encode_path (d ∷ ds) s (inl (λ e. cc)) h.1 a.1

starts_with-encode_path :
    (plain : ℕ → Bool) (cs : List Bytes) (s : Bool)
    → HasPath cs s
    → starts_with (codes "/") (encode_path plain cs s) ≡ true
unfolding starts_with
starts_with-encode_path plain [] true p = refl
starts_with-encode_path plain [] false p = absurd (ground arith)
starts_with-encode_path plain (c ∷ cs) s p = refl

-- What follows the path in a target: nothing, or a query.
pub data IsQuery : Bytes → Type 0 where
  no_query : IsQuery []
  query : (text : Bytes) → IsQuery (b'?' ∷ text)

path_of-IsQuery :
    {q : Bytes} (path : Bytes) → Free b'?' path → IsQuery q → path_of (path ++ q) ≡ path
path_of-IsQuery path h no_query = rw (append-nil path) (path_of-Free path h)
path_of-IsQuery path h (query text) = path_of-query path text h

-- Every list of safe components is what some target decodes to, and it does not matter which of
-- its bytes the client escapes, nor what query follows; the trailing slash is seen.
pub decode_target-encode_path :
    (plain : ℕ → Bool) (components : List Bytes) (trailing_slash : Bool) {q : Bytes}
    → IsPlain plain
    → HasPath components trailing_slash
    → All (All IsByte) components
    → All IsSafeComponent components
    → IsQuery q
    → decode_target (encode_path plain components trailing_slash ++ q)
      ≡ ok (record { components = components; trailing_slash = trailing_slash })
unfolding decode_target
decode_target-encode_path plain cs s fits p h a q =
    rw
      (
        path_of-IsQuery _ (encode_path-no_query plain fits cs s h) q,
        starts_with-encode_path plain cs s p,
        percent_decode-encode_path plain fits cs s h,
        good-slashed cs s a,
        components-slashed cs s p a,
        ends_with-encode_path plain cs s p h a,
      )
      refl
