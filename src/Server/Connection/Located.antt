-- ===== src/Server/Connection/Located.antt =====
-- Which file `serve_static` settles on.
use statika.Prelude.{
  refl, true, false, inl, inr, ok, err, ◌≡◌, arith, if◌then◌else◌, Result, Bool, Bool-cases, ◌&&◌,
  subst, ok-injective, List, not, sym, is_empty, ◌||◌, ◌++◌, ◌⊎◌,
}
use statika.Prelude.Bytes.{Bytes, Text, codes}
use statika.Io.{IoError}
use statika.Config.{Config}
use statika.Http.Types.{Status, Request, DecodedPath}
use statika.Server.Policy.{contains_denied_dotfile, starts_with_components}
use statika.Server.Representation.{RepresentationEncoding, is_not_found}
use statika.Server.Connection.Locate.{Root, Found, open_at, locate, locate_file, locate_index}

module _ {A File : Type 0} (root : Root File) (config : Config A) where
  -- A file at the path that was asked for or at the index, whose path is not denied, and that stands in for another only as the index, and for no
  -- asset.
  pub record Located (request : Request) (components : List Bytes) (requested_asset : Bool)
      (found : Found File) : Type 0 where
    pub served_is :
        (found.served_components ≡ components) ⊎ (found.served_components ≡ config.index)
    pub opened :
        open_at root config found.served_components request ≡ ok (found.file, found.encoding)
    pub visible :
        config.deny_dotfiles ≡ true → contains_denied_dotfile found.served_components ≡ false
    pub fallback_is :
        found.fallback ≡ true → (requested_asset ≡ false) × (found.served_components ≡ config.index)

  abbrev opened_index :
      Result IoError (File × RepresentationEncoding) → Result (Status × Text) (Found File)
  opened_index (ok (file, encoding)) = ok (record {
    file = file;
    served_components = config.index;
    encoding = encoding;
    fallback = true;
  })
  opened_index (err index_error) =
      if is_not_found index_error
      then err (Status.not_found, codes "not_found")
      else err (Status.internal_server_error, codes "open_index")

  opened_index-Located :
      (request : Request) (components : List Bytes)
      (o : Result IoError (File × RepresentationEncoding)) {found : Found File}
      → (config.deny_dotfiles && contains_denied_dotfile config.index) ≡ false
      → open_at root config config.index request ≡ o
      → opened_index o ≡ ok found
      → Located request components false found
  opened_index-Located request components (ok (file, encoding)) h o e =
      subst (Located request components false) (ok-injective e) (record {
        served_is = inr refl;
        opened = o;
        visible = λ d. ground arith;
        fallback_is = λ _. (refl, refl);
      })
  opened_index-Located request components (err x) h o e = elim (Bool-cases (is_not_found x)) [
    | inl m ↦ cc (rw m at e)
    | inr m ↦ cc (rw m at e)
  ]

  locate_index-Located :
      (request : Request) (components : List Bytes) {found : Found File}
      → locate_index root config request ≡ ok found
      → Located request components false found
  unfolding locate_index
  locate_index-Located request components e =
      elim (Bool-cases (config.deny_dotfiles && contains_denied_dotfile config.index)) [
        | inl d ↦ cc (rw d at e)
        | inr d ↦
            opened_index-Located request components (open_at root config config.index request) d
              refl (rw d at e)
      ]

  -- What `locate_file` makes of the answer to its path.
  abbrev opened_file :
      Request
      → List Bytes
      → Bool
      → Result IoError (File × RepresentationEncoding)
      → Result (Status × Text) (Found File)
  opened_file request components requested_asset (ok (file, encoding)) = ok (record {
    file = file;
    served_components = components;
    encoding = encoding;
    fallback = false;
  })
  opened_file request components requested_asset (err error) =
      if is_not_found error && not requested_asset
      then locate_index root config request
      else if is_not_found error
      then err (Status.not_found, codes "not_found")
      else err (Status.internal_server_error, codes "open_file")

  opened_file-Located :
      (request : Request) (components : List Bytes) (requested_asset : Bool)
      (o : Result IoError (File × RepresentationEncoding)) {found : Found File}
      → (config.deny_dotfiles && contains_denied_dotfile components) ≡ false
      → open_at root config components request ≡ o
      → opened_file request components requested_asset o ≡ ok found
      → Located request components requested_asset found
  opened_file-Located request components requested_asset (ok (file, encoding)) h o e =
      subst (Located request components requested_asset) (ok-injective e) (record {
        served_is = inl refl;
        opened = o;
        visible = λ d. ground arith;
        fallback_is = λ x. absurd (cc);
      })
  opened_file-Located request components requested_asset (err x) {found} h o e =
      elim (Bool-cases (is_not_found x && not requested_asset)) [
        | inl m ↦
            let no_asset : requested_asset ≡ false = ground arith in
            subst (λ b. Located request components b found) (sym no_asset)
              (locate_index-Located request components (rw m at e))
        | inr m ↦ elim (Bool-cases (is_not_found x)) [
          | inl n ↦ cc (rw n at (rw m at e))
          | inr n ↦ cc (rw n at (rw m at e))
        ]
      ]

  locate_file-Located :
      (request : Request) (components : List Bytes) (requested_asset : Bool) {found : Found File}
      → (config.deny_dotfiles && contains_denied_dotfile components) ≡ false
      → locate_file root config request components requested_asset ≡ ok found
      → Located request components requested_asset found
  unfolding locate_file
  locate_file-Located request components requested_asset h e =
      opened_file-Located request components requested_asset
        (open_at root config components request) h refl e

  pub locate-Located :
      (request : Request) (decoded : DecodedPath) {found : Found File}
      → locate root config request decoded ≡ ok found
      → Located request
          (if is_empty decoded.components || decoded.trailing_slash
            then decoded.components ++ config.index
            else decoded.components)
          (starts_with_components decoded.components config.assets_prefix)
          found
  unfolding locate
  locate-Located request decoded e =
      let components =
        if is_empty decoded.components || decoded.trailing_slash
        then decoded.components ++ config.index
        else decoded.components in
      elim (Bool-cases (config.deny_dotfiles && contains_denied_dotfile components)) [
        | inl d ↦ cc (rw d at e)
        | inr d ↦ locate_file-Located request components _ d (rw d at e)
      ]
