-- ===== src/Server/Connection/Locate.antt =====
-- The file that `serve_static` settles on, and the headers that are sent with it.
use statika.Prelude.{
  true, false, [], ok, err, ◌∷◌, if◌then◌else◌, List, Result, ◌++◌, is_empty, ◌||◌, ◌&&◌, Bool, not,
}
use statika.Prelude.Bytes.{Bytes, Text, codes}
use statika.Io.{IoError}
use statika.Config.{Config, Header}
use statika.Http.Types.{Status, Request, DecodedPath}
use statika.Http.Date.{http_date}
use statika.Net.{FileAnswers}
use statika.Server.Policy.{
  Metadata, etag, cache_control, contains_denied_dotfile, starts_with_components,
}
use statika.Server.Representation.{RepresentationEncoding, open_representation, is_not_found}
use statika.Server.Connection.{append_extra_headers}

-- A root directory by what its calls answer: opening, metadata, and reading of a file.
pub record Root (File : Type 0) : Type 0 where
  pub open_file : List Bytes → Result IoError File
  pub metadata : File → Result IoError Metadata
  pub answers : File → FileAnswers

pub record Found (File : Type 0) : Type 0 where
  pub file : File
  pub served_components : List Bytes
  pub encoding : RepresentationEncoding
  pub fallback : Bool

abbrev pub encoding_header : RepresentationEncoding → List (Text × Text)
encoding_header RepresentationEncoding.identity = []
encoding_header RepresentationEncoding.br = (codes "Content-Encoding", codes "br") ∷ []
encoding_header RepresentationEncoding.gzip = (codes "Content-Encoding", codes "gzip") ∷ []

module _ {A File : Type 0} (root : Root File) (config : Config A) where
  unfoldable pub open_at : List Bytes → Request → Result IoError (File × RepresentationEncoding)
  open_at components request =
      open_representation root.open_file components request.accepted_encodings config.brotli_enabled
        config.gzip_enabled

  -- The index, once the file was not found and is no asset.
  unfoldable pub locate_index : Request → Result (Status × Text) (Found File)
  locate_index request =
      if config.deny_dotfiles && contains_denied_dotfile config.index
      then err (Status.not_found, codes "dotfile_denied")
      else elim (open_at config.index request) [
        | ok (file, encoding) ↦ ok (record {
          file = file;
          served_components = config.index;
          encoding = encoding;
          fallback = true;
        })
        | err index_error ↦
            if is_not_found index_error
            then err (Status.not_found, codes "not_found")
            else err (Status.internal_server_error, codes "open_index")
      ]

  unfoldable pub locate_file : Request → List Bytes → Bool → Result (Status × Text) (Found File)
  locate_file request components requested_asset = elim (open_at components request) [
    | ok (file, encoding) ↦ ok (record {
      file = file;
      served_components = components;
      encoding = encoding;
      fallback = false;
    })
    | err error ↦
        if is_not_found error && not requested_asset
        then locate_index request
        else if is_not_found error
        then err (Status.not_found, codes "not_found")
        else err (Status.internal_server_error, codes "open_file")
  ]

  -- The file that answers, or the status and the error that are answered in its place.
  unfoldable pub locate : Request → DecodedPath → Result (Status × Text) (Found File)
  locate request decoded =
      let requested_asset = starts_with_components decoded.components config.assets_prefix in
      let components =
        if is_empty decoded.components || decoded.trailing_slash
        then decoded.components ++ config.index
        else decoded.components in
      if config.deny_dotfiles && contains_denied_dotfile components
      then err (Status.not_found, codes "dotfile_denied")
      else locate_file request components requested_asset

  unfoldable pub file_headers : Found File → Metadata → List Header → List (Text × Text)
  file_headers found metadata extra_headers =
      append_extra_headers
        ((codes "Cache-Control", cache_control found.served_components found.fallback config)
          ∷ (codes "ETag", etag metadata)
          ∷ (codes "Last-Modified", http_date metadata.mtime)
          ∷ ((if config.gzip_enabled || config.brotli_enabled
                then (codes "Vary", codes "Accept-Encoding") ∷ []
                else [])
              ++ encoding_header found.encoding))
        extra_headers
