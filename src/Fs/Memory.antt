-- ===== src/Fs/Memory.antt =====
-- A document root in memory, and what the system calls answer on it.
use statika.Prelude.{
  refl, none, some, inl, inr, ok, err, ◌≡◌, if◌then◌else◌, Bool, Option, Result, Bool-cases,
}
use statika.Fs.{Kernel}
use statika.Fs.Tree.{
  Node, child, IsPosix, has_flag_directory, Opened, is_regular, Duplicated, Told, opens_as, Entries,
}
use statika.Prelude.Bytes.{codes, Bytes}
use statika.Io.{IoError, ErrorKind, io_error, Errno}

abbrev pub site_root : Node
site_root = Node.directory (
    Entries.entry (codes "index.html") (Node.file (codes "hello")) (
      Entries.entry (codes "passwd") (Node.link (codes "/etc/passwd")) (
        Entries.entry (codes "pipe") Node.special (
          Entries.entry (codes "css")
            (Node.directory
              (Entries.entry (codes "a.css") (Node.file (codes "p{}")) Entries.no_entry))
            Entries.no_entry))))

memory_entry : Bool → Node → Result IoError Node
memory_entry as_directory there =
    if opens_as as_directory there
    then ok there
    else err (record { kind = ErrorKind.other; raw_os_error = some Errno.eloop })

memory_openat : Bool → Option Node → Result IoError Node
unfolding memory_entry
memory_openat as_directory none = err (io_error ErrorKind.not_found)
memory_openat as_directory (some there) = memory_entry as_directory there

-- A descriptor is what it has open.
unfoldable pub memory_kernel : Kernel Node
unfolding memory_openat child
memory_kernel = record {
  open_path = λ path flags. ok site_root;
  openat = λ parent name flags. memory_openat (has_flag_directory flags) (child parent name);
  duplicate = λ n. ok n;
  is_file = λ n. ok (is_regular n);
}

abbrev pub self : Node → Node
self n = n

memory_entry-Opened :
    (parent : Node) (name : Bytes) (as_directory : Bool) (there : Node)
    → child parent name ≡ some there
    → Opened self parent name as_directory (memory_entry as_directory there)
unfolding memory_entry
memory_entry-Opened parent name as_directory there e =
    elim (Bool-cases (opens_as as_directory there)) [
      | inl opens ↦ rw opens (Opened.entered e opens)
      | inr unfit ↦ rw unfit (Opened.not_opened e unfit (inr refl))
    ]

memory_openat-Opened :
    (parent : Node) (name : Bytes) (as_directory : Bool) (o : Option Node)
    → child parent name ≡ o
    → Opened self parent name as_directory (memory_openat as_directory o)
unfolding memory_openat
memory_openat-Opened parent name as_directory none e = Opened.no_such_entry e (inl refl)
memory_openat-Opened parent name as_directory (some there) e =
    memory_entry-Opened parent name as_directory there e

pub memory_kernel-IsPosix : IsPosix self memory_kernel
unfolding memory_kernel
memory_kernel-IsPosix = record {
  opens = λ fd name flags h e w.
      memory_openat-Opened fd name (has_flag_directory flags) (child fd name) refl;
  duplicates = λ fd. Duplicated.duplicated refl;
  tells = λ fd. Told.told;
}
