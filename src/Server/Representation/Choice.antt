-- ===== src/Server/Representation/Choice.antt =====
-- Which representation is chosen.
use statika.Prelude.{
  refl, true, false, inl, inr, ok, err, ◌≡◌, arith, List, Result, Bool, ◌<◌, ◌⊎◌, ◌&&◌, ◌≤◌, not,
  sym, ok-injective, Bool-cases, subst, >>=-eq-ok,
}
use statika.Io.{IoError}
use statika.Prelude.Bytes.{Bytes}
use statika.Http.Types.{AcceptedEncodings, accepts_br, accepts_gzip, prefer_br}
use statika.Server.Representation.{
  RepresentationEncoding, identity, br, gzip, br_path, gzip_path, is_not_found, sidecar_of, open_br,
  open_gzip, try_sidecar, open_representation,
}

module _ {File : Type 0} (open_file : List Bytes → Result IoError File) where
  -- Nothing that may be served is at the path.
  abbrev pub IsMissing : List Bytes → Type 0
  IsMissing path = (error : IoError) × (open_file path ≡ err error) × (is_not_found error ≡ true)

  -- A file and the encoding that it is served with, for a client that accepts some encodings and
  -- a server that has some enabled.
  pub data Chosen (components : List Bytes) (accepted : AcceptedEncodings)
      (brotli_enabled gzip_enabled : Bool) : File × RepresentationEncoding → Type 0 where
    br_file :
        {file : File}
        → brotli_enabled ≡ true
        → 0 < accepted.br_q
        → open_file (br_path components) ≡ ok file
        → (accepted.br_q < accepted.gzip_q → gzip_enabled ≡ true → IsMissing (gzip_path components))
        → Chosen components accepted brotli_enabled gzip_enabled (file, br)
    gzip_file :
        {file : File}
        → gzip_enabled ≡ true
        → 0 < accepted.gzip_q
        → open_file (gzip_path components) ≡ ok file
        → (accepted.gzip_q ≤ accepted.br_q → brotli_enabled ≡ true → IsMissing (br_path components))
        → Chosen components accepted brotli_enabled gzip_enabled (file, gzip)
    plain_file :
        {file : File}
        → open_file components ≡ ok file
        → (brotli_enabled ≡ true → 0 < accepted.br_q → IsMissing (br_path components))
        → (gzip_enabled ≡ true → 0 < accepted.gzip_q → IsMissing (gzip_path components))
        → Chosen components accepted brotli_enabled gzip_enabled (file, identity)

  -- A sidecar that is tried is served, or is missing and the rest decides.
  try_sidecar-cases :
      (tried : Bool) (path : List Bytes) (encoding : RepresentationEncoding)
      (rest : Result IoError (File × RepresentationEncoding))
      {result : File × RepresentationEncoding}
      → try_sidecar open_file tried (sidecar_of open_file (open_file path)) encoding rest
        ≡ ok result
      → ((file : File) × (tried ≡ true) × (open_file path ≡ ok file) × (result ≡ (file, encoding)))
        ⊎ ((rest ≡ ok result) × (tried ≡ true → IsMissing path))
  unfolding try_sidecar sidecar_of
  try_sidecar-cases false path encoding rest e = inr (e, λ x. absurd (cc))
  try_sidecar-cases true path encoding rest {result} e = go (open_file path) refl e
    where
      go :
          (opened : Result IoError File)
          → open_file path ≡ opened
          → try_sidecar open_file true (sidecar_of open_file opened) encoding rest ≡ ok result
          → ((file : File) × (true ≡ true)
              × (open_file path ≡ ok file)
              × (result ≡ (file, encoding)))
            ⊎ ((rest ≡ ok result) × (true ≡ true → IsMissing path))
      go (ok file) o h = inl (file, refl, o, sym (ok-injective h))
      go (err error) o h = elim (Bool-cases (is_not_found error)) [
        | inl m ↦ inr (rw m at h, λ _. (error, o, m))
        | inr m ↦ cc (rw m at h)
      ]

  module _ (components : List Bytes) (accepted : AcceptedEncodings)
      (brotli_enabled gzip_enabled : Bool) where
    -- When `open_representation` returns a file, its encoding is enabled and acceptable to the
    -- client; an encoding that the client likes better, br on a tie, was passed over only since its
    -- sidecar is missing, and the plain file is served only when every sidecar that is enabled and
    -- acceptable is missing.
    pub open_representation-Chosen :
        {result : File × RepresentationEncoding}
        → open_representation open_file components accepted brotli_enabled gzip_enabled ≡ ok result
        → Chosen components accepted brotli_enabled gzip_enabled result
    unfolding open_representation open_br open_gzip
    open_representation-Chosen e =
        let try_brotli = brotli_enabled && accepts_br accepted in
        let try_gzip = gzip_enabled && accepts_gzip accepted in
        elim (try_sidecar-cases (try_brotli && prefer_br accepted) (br_path components) br _ e) [
          | inl (file, tried, opened, r) ↦
              subst (Chosen components accepted brotli_enabled gzip_enabled) (sym r)
                (br_file (ground arith) (ground arith) opened (λ l x. absurd (ground arith)))
          | inr (e₁, first) ↦ elim (try_sidecar-cases try_gzip (gzip_path components) gzip _ e₁) [
            | inl (file, tried, opened, r) ↦
                subst (Chosen components accepted brotli_enabled gzip_enabled) (sym r)
                  (gzip_file (ground arith) (ground arith) opened (λ l x. first (ground arith)))
            | inr (e₂, second) ↦
                elim (try_sidecar-cases (try_brotli && not (prefer_br accepted))
                  (br_path components) br _ e₂) [
                    | inl (file, tried, opened, r) ↦
                        subst (Chosen components accepted brotli_enabled gzip_enabled) (sym r) (
                          br_file (ground arith) (ground arith) opened
                            (λ l x. second (ground arith)))
                    | inr (e₃, third) ↦
                        let (file, opened, r) = >>=-eq-ok (open_file components) _ e₃ in
                        subst (Chosen components accepted brotli_enabled gzip_enabled)
                          (ok-injective r)
                          (plain_file opened (λ x y. br_missing first third x y)
                            (λ x y. second (ground arith)))
                  ]
          ]
        ]
      where
        br_missing :
            ((brotli_enabled && accepts_br accepted && prefer_br accepted) ≡ true
              → IsMissing (br_path components))
            → ((brotli_enabled && accepts_br accepted && not (prefer_br accepted)) ≡ true
                → IsMissing (br_path components))
            → brotli_enabled ≡ true
            → 0 < accepted.br_q
            → IsMissing (br_path components)
        br_missing first third x y = elim (Bool-cases (prefer_br accepted)) [
          | inl p ↦ first (ground arith)
          | inr p ↦ third (ground arith)
        ]
