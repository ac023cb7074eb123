-- ===== src/Fs.antt =====
-- `RootDir` of fs.rs: how the document root and the files below it are opened. The kernel is the
-- record of the system calls that the code makes, each with what it answers; a descriptor is of any
-- type, and is closed where the code drops it.
mod Tests
pub mod Memory
pub mod Tree
pub mod Refines
use statika.Prelude.{
  refl, true, false, none, some, [], inl, inr, ok, err, ◌>>=◌, ◌>>◌, ◌∷◌, ◌≡◌, arith, if◌then◌else◌,
  ℕ, zero, suc, List, Bool, any, Result, ◌==◌, fail_if, is_empty,
}
use statika.Prelude.Bytes.{Bytes}
use statika.Io.{IoError, io_error, ErrorKind}

pub data OpenFlag : Type 0 where
  rdonly directory cloexec nofollow nonblock : OpenFlag

-- `open`, `openat`, `fcntl` with `F_DUPFD_CLOEXEC`, and `fstat` as `metadata().is_file()`.
pub record Kernel (Fd : Type 0) : Type 0 where
  pub open_path : Bytes → List OpenFlag → Result IoError Fd
  pub openat : Fd → Bytes → List OpenFlag → Result IoError Fd
  pub duplicate : Fd → Result IoError Fd
  pub is_file : Fd → Result IoError Bool

pub record RootDir (Fd : Type 0) : Type 0 where
  pub fd : Fd

-- What `CString::new` refuses.
unfoldable pub contains_nul : Bytes → Bool
contains_nul bytes = any (λ b. b == 0) bytes

abbrev root_flags : List OpenFlag
root_flags = OpenFlag.rdonly ∷ OpenFlag.directory ∷ OpenFlag.cloexec ∷ OpenFlag.nofollow ∷ []

-- The flags of a component, by whether it is the last.
unfoldable pub component_flags : Bool → List OpenFlag
component_flags true =
    OpenFlag.rdonly ∷ OpenFlag.cloexec ∷ OpenFlag.nofollow ∷ OpenFlag.nonblock ∷ []
component_flags false =
    OpenFlag.rdonly ∷ OpenFlag.directory ∷ OpenFlag.cloexec ∷ OpenFlag.nofollow ∷ []

module _ {Fd : Type 0} (kernel : Kernel Fd) where
  unfoldable pub open_root : Bytes → Result IoError (RootDir Fd)
  unfolding contains_nul
  open_root path = do
    fail_if (contains_nul path) (io_error ErrorKind.invalid_input)
    fd ← kernel.open_path path root_flags
    ok (record { fd = fd })

  -- The loop over the components, from the directory that is open.
  unfoldable pub open_components : Fd → List Bytes → Result IoError Fd
  unfolding contains_nul component_flags
  open_components current [] = ok current
  open_components current (component ∷ components) = do
    fail_if (contains_nul component) (io_error ErrorKind.invalid_input)
    fd ← kernel.openat current component (component_flags (is_empty components))
    open_components fd components

  -- The last test: only a regular file is returned.
  regular_only : Fd → Bool → Result IoError Fd
  regular_only file true = ok file
  regular_only file false = err (io_error ErrorKind.not_found)

  unfoldable pub open_file : RootDir Fd → List Bytes → Result IoError Fd
  unfolding open_components regular_only
  open_file root [] = err (io_error ErrorKind.not_found)
  open_file root (component ∷ components) = do
    current ← kernel.duplicate root.fd
    file ← open_components current (component ∷ components)
    regular ← kernel.is_file file
    regular_only file regular
