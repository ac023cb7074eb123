-- ===== src/Fs/Tree.antt =====
-- What the document root holds, apart from how it is opened: a tree of names. A path leads to the
-- regular file that stands at the end of its names, and no name leads through a symbolic link.
-- The system calls, as POSIX and Linux document them, answer by this tree.
use statika.Prelude.{
  true, false, none, some, [], ok, err, ◌∷◌, ◌≡◌, if◌then◌else◌, Option, Bool, List, Result, not,
  ◌⊎◌,
}
use statika.Fs.{Kernel, OpenFlag}
use statika.Prelude.Bytes.{Bytes, equal}
use statika.Io.{IoError, ErrorKind, Errno}
use statika.Config.Components.{IsEntryName}

mutual
  pub data Node : Type 0 where
    file : Bytes → Node
    directory : Entries → Node
    link : Bytes → Node
    special : Node

  pub data Entries : Type 0 where
    no_entry : Entries
    entry : Bytes → Node → Entries → Entries

unfoldable pub entry_named : Entries → Bytes → Option Node
entry_named no_entry name = none
entry_named (entry other node entries) name =
    let rest = entry_named entries name in if equal other name then some node else rest

unfoldable pub child : Node → Bytes → Option Node
unfolding entry_named
child (directory entries) name = entry_named entries name
child _ name = none

unfoldable pub node_at : Node → List Bytes → Option Node
unfolding child
node_at node [] = some node
node_at node (name ∷ names) = elim (child node name) [
  | none ↦ none
  | some next ↦ node_at next names
]

abbrev pub content_of : Option Node → Option Bytes
content_of (some (file content)) = some content
content_of _ = none

-- The content of the regular file at a path; the root itself is none.
unfoldable pub file_at : Node → List Bytes → Option Bytes
unfolding node_at
file_at node [] = none
file_at node (name ∷ names) = content_of (node_at node (name ∷ names))

-- Whether an entry of this kind opens when symbolic links are not followed.
abbrev pub opens_as : Bool → Node → Bool
opens_as as_directory (directory entries) = true
opens_as as_directory (link target) = false
opens_as as_directory _ = not as_directory

abbrev pub is_regular : Node → Bool
is_regular (file content) = true
is_regular _ = false

abbrev pub has_flag_nofollow : List OpenFlag → Bool
has_flag_nofollow [] = false
has_flag_nofollow (OpenFlag.nofollow ∷ flags) = true
has_flag_nofollow (_ ∷ flags) = has_flag_nofollow flags

abbrev pub has_flag_directory : List OpenFlag → Bool
has_flag_directory [] = false
has_flag_directory (OpenFlag.directory ∷ flags) = true
has_flag_directory (_ ∷ flags) = has_flag_directory flags

-- With O_NONBLOCK no open waits, and with O_DIRECTORY no pipe is opened, for which it could wait.
abbrev pub never_waits : List OpenFlag → Bool
never_waits [] = false
never_waits (OpenFlag.nonblock ∷ flags) = true
never_waits (OpenFlag.directory ∷ flags) = true
never_waits (_ ∷ flags) = never_waits flags

-- An error that the names in the tree do not decide: no permission, no descriptor left, or another
-- (no memory, a failing disk, a name that is too long, a socket).
pub data IsRefusal (error : IoError) : Type 0 where
  no_permission : error.kind ≡ ErrorKind.permission_denied → IsRefusal error
  no_descriptor : error.raw_os_error ≡ some Errno.emfile → IsRefusal error
  no_descriptor_anywhere : error.raw_os_error ≡ some Errno.enfile → IsRefusal error
  other_failure : error.raw_os_error ≡ some Errno.other → IsRefusal error

module _ {Fd : Type 0} (node : Fd → Node) where
  -- `openat` with `O_NOFOLLOW`, for a name in the directory `parent`.
  pub data Opened (parent : Node) (name : Bytes) (as_directory : Bool)
      : Result IoError Fd → Type 0 where
    entered :
        {fd : Fd}
        → child parent name ≡ some (node fd)
        → opens_as as_directory (node fd) ≡ true
        → Opened parent name as_directory (ok fd)
    no_such_entry :
        {error : IoError}
        → child parent name ≡ none
        → (error.kind ≡ ErrorKind.not_found) ⊎ (error.kind ≡ ErrorKind.not_a_directory)
        → Opened parent name as_directory (err error)
    not_opened :
        {error : IoError} {there : Node}
        → child parent name ≡ some there
        → opens_as as_directory there ≡ false
        → (error.kind ≡ ErrorKind.not_a_directory) ⊎ (error.raw_os_error ≡ some Errno.eloop)
        → Opened parent name as_directory (err error)
    refused : {error : IoError} → IsRefusal error → Opened parent name as_directory (err error)

  pub data Duplicated (fd : Fd) : Result IoError Fd → Type 0 where
    duplicated : {copy : Fd} → node copy ≡ node fd → Duplicated fd (ok copy)
    refused : {error : IoError} → IsRefusal error → Duplicated fd (err error)

  pub data Told (fd : Fd) : Result IoError Bool → Type 0 where
    told : Told fd (ok (is_regular (node fd)))
    refused : {error : IoError} → IsRefusal error → Told fd (err error)

  -- A kernel that answers by the tree, where `node` says what a descriptor has open. The names are
  -- those of single entries; of other names, and of an open that might wait, nothing is assumed.
  pub record IsPosix (kernel : Kernel Fd) : Type 0 where
    pub opens :
        (fd : Fd) (name : Bytes) (flags : List OpenFlag)
        → IsEntryName name
        → has_flag_nofollow flags ≡ true
        → never_waits flags ≡ true
        → Opened (node fd) name (has_flag_directory flags) (kernel.openat fd name flags)
    pub duplicates : (fd : Fd) → Duplicated fd (kernel.duplicate fd)
    pub tells : (fd : Fd) → Told fd (kernel.is_file fd)
