-- ===== src/Server/Connection/Rooted.antt =====
-- `serve_static` over `RootDir`: where the file that answers stands in the document root.
use statika.Prelude.{
  refl, some, [], inl, inr, ok, ◌∷◌, ◌≡◌, arith, if◌then◌else◌, List, Result, ◌≤◌, Bool, All, ◌++◌,
  length, is_empty, Option, ◌||◌, ◌≢◌, ◌∙◌, ◌⊎◌, subst, length-append, sym, ap, All-append,
  Bool-cases, any-append, ◌==◌, All-mono,
}
use statika.Fs.Tree.{Node, file_at, IsPosix}
use statika.Server.Representation.{
  extend_last, RepresentationEncoding, br_path, gzip_path, open_representation,
}
use statika.Prelude.Bytes.{Bytes, codes}
use statika.Server.Connection.Locate.{Found, Root, open_at, locate}
use statika.Config.Components.{IsEntryName}
use statika.Fs.{Kernel, RootDir, open_file}
use statika.Http.Target.Safe.{IsSafeComponent, IsPathByte, decode_target-IsSafe}
use statika.Io.{IoError}
use statika.Fs.Refines.{Answered, open_file-Answered}
use statika.Http.Types.{AcceptedEncodings, Request, DecodedPath}
use statika.Prelude.Split.{Free}
use statika.Server.Representation.Choice.{Chosen, open_representation-Chosen}
use statika.Config.{Config}
use statika.Http.Target.{decode_target}
use statika.Server.Connection.Located.{locate-Located}

-- The path that is opened for an encoding.
abbrev pub encoded_path : RepresentationEncoding → List Bytes → List Bytes
encoded_path RepresentationEncoding.identity components = components
encoded_path RepresentationEncoding.br components = br_path components
encoded_path RepresentationEncoding.gzip components = gzip_path components

path_bytes_enter : (w : Bytes) → All IsPathByte w → All (λ b. (b ≢ 0) × (b ≢ 92)) w × Free b'/' w
path_bytes_enter [] h = (tt, refl)
path_bytes_enter (b ∷ w) h =
    let (bytes, free) = path_bytes_enter w h.1 in ((ground arith, bytes), ground (arith, free))

safe_entry : (component : Bytes) → IsSafeComponent component → IsEntryName component
safe_entry component h = record {
  some_byte = h.some_byte;
  not_dot = h.not_dot;
  not_dot_dot = h.not_dot_dot;
  bytes = (path_bytes_enter component h.bytes).0;
  no_slash = (path_bytes_enter component h.bytes).1;
}

-- A name with a suffix of four bytes or three is the name of an entry.
suffixed_entry :
    (component suffix : Bytes)
    → 3 ≤ length suffix
    → All (λ b. (b ≢ 0) × (b ≢ 92)) suffix
    → Free b'/' suffix
    → IsEntryName component
    → IsEntryName (component ++ suffix)
suffixed_entry component suffix l a f h =
    let long = length-append component suffix in
    record {
      some_byte = λ e. omega (arith, long, ap length e);
      not_dot = λ e. omega (arith, long, ap length e);
      not_dot_dot = λ e. omega (arith, long, ap length e);
      bytes = All-append _ component suffix h.bytes a;
      no_slash = cc (any-append (λ c. c == b'/') component suffix, h.no_slash, f);
    }

extend_last-IsEntryName :
    (suffix : Bytes) (components : List Bytes)
    → ((component : Bytes) → IsEntryName component → IsEntryName (component ++ suffix))
    → All IsEntryName components
    → All IsEntryName (extend_last suffix components)
unfolding extend_last
extend_last-IsEntryName suffix [] f h = tt
extend_last-IsEntryName suffix (component ∷ []) f h = (f component h.0, tt)
extend_last-IsEntryName suffix (component ∷ next ∷ components) f h =
    (h.0, extend_last-IsEntryName suffix (next ∷ components) f h.1)

encoded_path-IsEntryName :
    (encoding : RepresentationEncoding) (components : List Bytes)
    → All IsEntryName components
    → All IsEntryName (encoded_path encoding components)
unfolding br_path gzip_path
encoded_path-IsEntryName RepresentationEncoding.identity components h = h
encoded_path-IsEntryName RepresentationEncoding.br components h =
    extend_last-IsEntryName (codes ".br") components
      (λ component g. suffixed_entry component (codes ".br") (omega arith) (ground arith) refl g) h
encoded_path-IsEntryName RepresentationEncoding.gzip components h =
    extend_last-IsEntryName (codes ".gz") components
      (λ component g. suffixed_entry component (codes ".gz") (omega arith) (ground arith) refl g) h

module _ {File : Type 0} (open_file : List Bytes → Result IoError File)
    (components : List Bytes) where
  opened_at :
      (accepted : AcceptedEncodings) (brotli_enabled gzip_enabled : Bool) {file : File}
      {encoding : RepresentationEncoding}
      → open_representation open_file components accepted brotli_enabled gzip_enabled
        ≡ ok (file, encoding)
      → open_file (encoded_path encoding components) ≡ ok file
  opened_at accepted brotli_enabled gzip_enabled e =
      chosen_at _ _ _ (open_representation-Chosen open_file components _ _ _ e)
    where
      chosen_at :
          (accepted : AcceptedEncodings) (brotli_enabled gzip_enabled : Bool)
          {result : File × RepresentationEncoding}
          → Chosen open_file components accepted brotli_enabled gzip_enabled result
          → open_file (encoded_path result.1 components) ≡ ok result.0
      chosen_at _ _ _ (Chosen.br_file _ _ o _) = o
      chosen_at _ _ _ (Chosen.gzip_file _ _ o _) = o
      chosen_at _ _ _ (Chosen.plain_file o _ _) = o

-- A file that the tree holds at the path that it was opened at.
pub record Rooted {Fd : Type 0} (node : Fd → Node) (root : Fd) (found : Found Fd) : Type 0 where
  pub names : All IsEntryName found.served_components
  pub content : Bytes
  pub stands_at :
      file_at (node root) (encoded_path found.encoding found.served_components) ≡ some content
  pub is_file : node found.file ≡ Node.file content

opened_Rooted :
    {Fd : Type 0} (node : Fd → Node) (root : Fd) (found : Found Fd) (there : Option Bytes)
    → All IsEntryName found.served_components
    → file_at (node root) (encoded_path found.encoding found.served_components) ≡ there
    → Answered node there (ok found.file)
    → Rooted node root found
opened_Rooted node root found there h e (Answered.opened {bytes} c n) = record {
  names = h;
  content = bytes;
  stands_at = e ∙ c;
  is_file = n;
}

served_names :
    (P : Bytes → Type 0) (components index : List Bytes) (slash : Bool) {served : List Bytes}
    → All P components
    → All P index
    → (served ≡ (if is_empty components || slash then components ++ index else components))
      ⊎ (served ≡ index)
    → All P served
served_names P components index slash h i (inr e) = subst (All P) (sym e) i
served_names P components index slash h i (inl e) =
    elim (Bool-cases (is_empty components || slash)) [
      | inl b ↦ subst (All P) (sym (rw b at e)) (All-append P components index h i)
      | inr b ↦ subst (All P) (sym (rw b at e)) h
    ]

module _ {A Fd : Type 0} (node : Fd → Node) (kernel : Kernel Fd) (posix : IsPosix node kernel)
    (dir : RootDir Fd) (root : Root Fd) (opens : root.open_file ≡ open_file kernel dir)
    (config : Config A) (index : All IsEntryName config.index) where
  -- On a kernel that answers by the tree below the document root, for a request whose target
  -- decodes and an index made of names of entries: the file that is chosen, if any, is a regular
  -- file of that tree, which stands at the names it is served under, the last with the suffix of
  -- its encoding, without a symbolic link on the way.
  pub locate-Rooted :
      (request : Request) (target : Bytes) {decoded : DecodedPath} {found : Found Fd}
      → decode_target target ≡ ok decoded
      → locate root config request decoded ≡ ok found
      → Rooted node dir.fd found
  unfolding open_at
  locate-Rooted request target {decoded} {found} d e =
      let located = locate-Located root config request decoded e in
      let entries =
        All-mono IsSafeComponent IsEntryName safe_entry decoded.components
          (decode_target-IsSafe target d) in
      let names =
        served_names IsEntryName decoded.components config.index decoded.trailing_slash entries
          index located.served_is in
      let path = encoded_path found.encoding found.served_components in
      let opened = opened_at root.open_file found.served_components _ _ _ located.opened in
      opened_Rooted node dir.fd found (file_at (node dir.fd) path) names refl (
        subst (Answered node (file_at (node dir.fd) path)) (ap (λ f. f path) (sym opens) ∙ opened) (
          open_file-Answered node kernel posix dir path
            (encoded_path-IsEntryName found.encoding found.served_components names)))
