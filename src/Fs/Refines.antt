-- ===== src/Fs/Refines.antt =====
-- `open_file` against the tree below the document root.
use statika.Fs.Tree.{
  duplicated, entered, no_such_entry, not_opened, Told, Duplicated, is_regular, file_at,
  never_waits,
}
use statika.Prelude.{
  refl, true, false, none, some, [], inl, inr, ok, err, ◌>>=◌, ◌∷◌, ◌≡◌, arith, Option, Result,
  Bool, All, ◌||◌, List, ◌⊎◌, not, ◌≢◌, is_empty, subst,
}
use statika.Fs.Tree.{
  Node, content_of, IsRefusal, node_at, has_flag_directory, IsPosix, child, has_flag_nofollow,
  Opened, opens_as,
}
use statika.Prelude.Bytes.{Bytes}
use statika.Io.{IoError, ErrorKind, Errno}
use statika.Server.Representation.{is_not_found, is_missing_kind, is_eloop}
use statika.Fs.{
  Kernel, component_flags, contains_nul, open_components, regular_only, open_file, RootDir,
}
use statika.Config.Components.{IsEntryName}

module _ {Fd : Type 0} (node : Fd → Node) where
  -- What `open_file` may answer for a path at which the tree holds `content`, or nothing: the
  -- file, an error that counts as not found, or a refusal of the kernel.
  pub data Answered (content : Option Bytes) : Result IoError Fd → Type 0 where
    opened :
        {fd : Fd} {bytes : Bytes}
        → content ≡ some bytes
        → node fd ≡ Node.file bytes
        → Answered content (ok fd)
    absent :
        {error : IoError}
        → content ≡ none
        → is_not_found error ≡ true
        → Answered content (err error)
    refused : {error : IoError} → IsRefusal error → Answered content (err error)

  data Walked (there : Option Node) : Result IoError Fd → Type 0 where
    arrived : {fd : Fd} → there ≡ some (node fd) → Walked there (ok fd)
    lost :
        {error : IoError}
        → content_of there ≡ none
        → is_not_found error ≡ true
        → Walked there (err error)
    refused : {error : IoError} → IsRefusal error → Walked there (err error)

entry_missing :
    (error : IoError)
    → (error.kind ≡ ErrorKind.not_found) ⊎ (error.kind ≡ ErrorKind.not_a_directory)
    → is_not_found error ≡ true
unfolding is_not_found is_missing_kind
entry_missing error (inl e) = rw e refl
entry_missing error (inr e) = rw e refl

missing_or_eloop : (k : Bool) → (k || true) ≡ true
missing_or_eloop true = refl
missing_or_eloop false = refl

entry_unfit :
    (error : IoError)
    → (error.kind ≡ ErrorKind.not_a_directory) ⊎ (error.raw_os_error ≡ some Errno.eloop)
    → is_not_found error ≡ true
unfolding is_not_found is_missing_kind is_eloop
entry_unfit error (inl e) = rw e refl
entry_unfit error (inr e) = rw e (missing_or_eloop _)

-- Where an entry does not open, no file is below it.
nothing_below :
    (there : Node) (names : List Bytes)
    → opens_as (not (is_empty names)) there ≡ false
    → content_of (node_at there names) ≡ none
unfolding node_at child
nothing_below (Node.file content) [] h = absurd (cc)
nothing_below (Node.directory entries) names h = absurd (cc)
nothing_below (Node.link target) [] h = refl
nothing_below Node.special [] h = absurd (cc)
nothing_below (Node.file content) (name ∷ names) h = refl
nothing_below (Node.link target) (name ∷ names) h = refl
nothing_below Node.special (name ∷ names) h = refl

nofollow_always : (last : Bool) → has_flag_nofollow (component_flags last) ≡ true
unfolding component_flags
nofollow_always true = refl
nofollow_always false = refl

waits_never : (last : Bool) → never_waits (component_flags last) ≡ true
unfolding component_flags
waits_never true = refl
waits_never false = refl

directory_unless_last : (last : Bool) → has_flag_directory (component_flags last) ≡ not last
unfolding component_flags
directory_unless_last true = refl
directory_unless_last false = refl

no_nul : (bytes : Bytes) → All (λ b. (b ≢ 0) × (b ≢ 92)) bytes → contains_nul bytes ≡ false
unfolding contains_nul
no_nul [] h = refl
no_nul (b ∷ bytes) h = ground (arith, no_nul bytes h.1)

module _ {Fd : Type 0} (node : Fd → Node) (kernel : Kernel Fd) (posix : IsPosix node kernel) where
  -- The step at a component, once the kernel has answered.
  Opened-Walked :
      (parent : Node) (name : Bytes) (names : List Bytes) (answer : Result IoError Fd)
      → Opened node parent name (not (is_empty names)) answer
      → ((fd : Fd) → Walked node (node_at (node fd) names) (open_components kernel fd names))
      → Walked node
          (node_at parent (name ∷ names))
          (answer >>= λ fd. open_components kernel fd names)
  unfolding node_at
  Opened-Walked parent name names (ok fd) (entered there fits) walk = rw (node_at, there) (walk fd)
  Opened-Walked parent name names (err error) (no_such_entry there e) walk =
      lost (rw (node_at, there) refl) (entry_missing error e)
  Opened-Walked parent name names (err error) (not_opened {there} at_child unfit e) walk =
      lost (rw (node_at, at_child) (nothing_below there names unfit)) (entry_unfit error e)
  Opened-Walked parent name names (err error) (Opened.refused r) walk = refused r

  open_components-Walked :
      (names : List Bytes) (fd : Fd)
      → All IsEntryName names
      → Walked node (node_at (node fd) names) (open_components kernel fd names)
  unfolding open_components node_at
  open_components-Walked [] fd h = arrived refl
  open_components-Walked (name ∷ names) fd h =
      let last = is_empty names in
      rw (no_nul name h.0.bytes) (
        Opened-Walked (node fd) name names (kernel.openat fd name (component_flags last))
          (subst (λ d. Opened node (node fd) name d (kernel.openat fd name (component_flags last)))
            (directory_unless_last last)
            (posix.opens fd name (component_flags last) h.0 (nofollow_always last)
              (waits_never last)))
          (λ next. open_components-Walked names next h.1))

  regular_only-Answered :
      (there : Option Node) (fd : Fd)
      → there ≡ some (node fd)
      → Answered node (content_of there) (regular_only kernel fd (is_regular (node fd)))
  unfolding regular_only
  regular_only-Answered there fd e = rw e (go (node fd) refl)
    where
      go :
          (n : Node)
          → node fd ≡ n
          → Answered node (content_of (some n)) (regular_only kernel fd (is_regular n))
      go (Node.file content) h = opened refl h
      go (Node.directory entries) h = absent refl (entry_missing _ (inl refl))
      go (Node.link target) h = absent refl (entry_missing _ (inl refl))
      go Node.special h = absent refl (entry_missing _ (inl refl))

  Told-Answered :
      (there : Option Node) (fd : Fd) (answer : Result IoError Bool)
      → there ≡ some (node fd)
      → Told node fd answer
      → Answered node (content_of there) (answer >>= λ regular. regular_only kernel fd regular)
  Told-Answered there fd _ e Told.told = regular_only-Answered there fd e
  Told-Answered there fd (err error) e (Told.refused r) = refused r

  Walked-Answered :
      (there : Option Node) (answer : Result IoError Fd)
      → Walked node there answer
      → Answered node
          (content_of there)
          (answer >>= λ fd. kernel.is_file fd >>= λ regular. regular_only kernel fd regular)
  Walked-Answered there (ok fd) (arrived e) =
      Told-Answered there fd (kernel.is_file fd) e (posix.tells fd)
  Walked-Answered there (err error) (lost e m) = absent e m
  Walked-Answered there (err error) (refused r) = refused r

  Duplicated-Answered :
      (root : Fd) (name : Bytes) (names : List Bytes) (answer : Result IoError Fd)
      → All IsEntryName (name ∷ names)
      → Duplicated node root answer
      → Answered node (content_of (node_at (node root) (name ∷ names))) (
          answer >>= λ fd. open_components kernel fd (name ∷ names) >>= λ file.
          kernel.is_file file >>= λ regular. regular_only kernel file regular)
  Duplicated-Answered root name names (ok copy) h (duplicated same) =
      subst
        (λ n. Answered node (content_of (node_at n (name ∷ names))) (
          open_components kernel copy (name ∷ names) >>= λ file.
          kernel.is_file file >>= λ regular. regular_only kernel file regular))
        same
        (Walked-Answered (node_at (node copy) (name ∷ names))
          (open_components kernel copy (name ∷ names))
          (open_components-Walked (name ∷ names) copy h))
  Duplicated-Answered root name names (err error) h (Duplicated.refused r) = refused r

  -- For names of entries, on a kernel that answers by the tree below the document root as POSIX
  -- documents it: `open_file` opens the regular file that stands at the path; where none stands
  -- there (a name is missing, leads through a symbolic link, or ends at a link, a directory or a
  -- pipe) it fails with an error that counts as not found; and it fails otherwise only where the
  -- kernel refuses.
  pub open_file-Answered :
      (root : RootDir Fd) (names : List Bytes)
      → All IsEntryName names
      → Answered node (file_at (node root.fd) names) (open_file kernel root names)
  unfolding open_file file_at
  open_file-Answered root [] h = absent refl (entry_missing _ (inl refl))
  open_file-Answered root (name ∷ names) h =
      Duplicated-Answered root.fd name names (kernel.duplicate root.fd) h (posix.duplicates root.fd)
