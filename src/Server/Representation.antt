-- ===== src/Server/Representation.antt =====
-- `open_representation` and `open_compressed` of server.rs, with `br_path`, `gzip_path` and
-- `is_not_found` of fs.rs: which file answers a request. The root directory is what its
-- `open_file` answers for a path; its files are of any type.
mod Tests
pub mod Choice
use statika.Prelude.{
  refl, true, false, none, some, [], inl, inr, ok, err, ◌>>=◌, ◌>>◌, ◌∷◌, ◌≡◌, arith, if◌then◌else◌,
  ℕ, zero, suc, Bool, List, Option, ◌||◌, Result, ◌++◌, ◌&&◌, not,
}
use statika.Io.{IoError, Errno, ErrorKind, io_error}
use statika.Prelude.Bytes.{Bytes, codes}
use statika.Http.Types.{AcceptedEncodings, accepts_br, accepts_gzip, prefer_br}

pub data RepresentationEncoding : Type 0 where
  identity br gzip : RepresentationEncoding

-- The last component gets the suffix.
unfoldable pub extend_last : Bytes → List Bytes → List Bytes
extend_last suffix [] = []
extend_last suffix (component ∷ []) = (component ++ suffix) ∷ []
extend_last suffix (component ∷ next ∷ components) =
    component ∷ extend_last suffix (next ∷ components)

unfoldable pub br_path : List Bytes → List Bytes
unfolding extend_last
br_path components = extend_last (codes ".br") components

unfoldable pub gzip_path : List Bytes → List Bytes
unfolding extend_last
gzip_path components = extend_last (codes ".gz") components

unfoldable pub is_missing_kind : ErrorKind → Bool
is_missing_kind ErrorKind.not_found = true
is_missing_kind ErrorKind.permission_denied = true
is_missing_kind ErrorKind.not_a_directory = true
is_missing_kind _ = false

unfoldable pub is_eloop : Option Errno → Bool
is_eloop (some Errno.eloop) = true
is_eloop _ = false

unfoldable pub is_not_found : IoError → Bool
unfolding is_missing_kind is_eloop
is_not_found error = is_missing_kind error.kind || is_eloop error.raw_os_error

module _ {File : Type 0} (open_file : List Bytes → Result IoError File) where
  -- The match on the opened sidecar.
  sidecar_of : Result IoError File → Result IoError (Option File)
  sidecar_of (ok file) = ok (some file)
  sidecar_of (err error) = if is_not_found error then ok none else err error

  -- The two encodings that have a sidecar: with the third the code panics, and no call has it.
  open_br : List Bytes → Result IoError (Option File)
  open_br components = sidecar_of (open_file (br_path components))

  open_gzip : List Bytes → Result IoError (Option File)
  open_gzip components = sidecar_of (open_file (gzip_path components))

  -- One `if` with its `match`: the rest of the function runs where it does not return.
  try_sidecar :
      Bool
      → Result IoError (Option File)
      → RepresentationEncoding
      → Result IoError (File × RepresentationEncoding)
      → Result IoError (File × RepresentationEncoding)
  try_sidecar false opened encoding rest = rest
  try_sidecar true (ok (some file)) encoding rest = ok (file, encoding)
  try_sidecar true (ok none) encoding rest = rest
  try_sidecar true (err error) encoding rest = err error

  unfoldable pub open_representation :
      List Bytes → AcceptedEncodings → Bool → Bool → Result IoError (File × RepresentationEncoding)
  unfolding sidecar_of open_br open_gzip try_sidecar br_path gzip_path is_not_found accepts_br
      accepts_gzip prefer_br
  open_representation components accepted brotli_enabled gzip_enabled =
      let try_brotli = brotli_enabled && accepts_br accepted in
      let try_gzip = gzip_enabled && accepts_gzip accepted in
      try_sidecar (try_brotli && prefer_br accepted) (open_br components) RepresentationEncoding.br
        (try_sidecar try_gzip (open_gzip components) RepresentationEncoding.gzip (
          try_sidecar (try_brotli && not (prefer_br accepted)) (open_br components)
            RepresentationEncoding.br
            (do file ← open_file components; ok (file, RepresentationEncoding.identity))))
