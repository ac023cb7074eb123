-- ===== src/Fs/Tests.antt =====
-- `open_file` on a root in memory.
use statika.Prelude.{refl, some, [], ok, err, ◌∷◌, ◌≡◌, arith}
use statika.Fs.{open_file, RootDir}
use statika.Fs.Tree.{Node, file_at, entry_named}
use statika.Fs.Refines.{Answered, open_file-Answered}
use statika.Config.Components.{IsEntryName}
use statika.Prelude.Bytes.{equal, codes}
use statika.Io.{ErrorKind, io_error, Errno}
use statika.Fs.Memory.{self, memory_kernel, site_root, memory_kernel-IsPosix}

abbrev example_dir : RootDir Node
example_dir = record { fd = site_root }

css_opened :
    open_file memory_kernel example_dir (codes "css" ∷ codes "a.css" ∷ [])
    ≡ ok (Node.file (codes "p{}"))
unfolding open_file memory_kernel equal entry_named
css_opened = refl

link_not_followed :
    open_file memory_kernel example_dir (codes "passwd" ∷ [])
    ≡ err (record { kind = ErrorKind.other; raw_os_error = some Errno.eloop })
unfolding open_file memory_kernel equal entry_named
link_not_followed = refl

pipe_refused :
    open_file memory_kernel example_dir (codes "pipe" ∷ []) ≡ err (io_error ErrorKind.not_found)
unfolding open_file memory_kernel equal entry_named
pipe_refused = refl

example_name : IsEntryName (codes "index.html")
example_name = record {
  some_byte = λ e. cc;
  not_dot = λ e. cc;
  not_dot_dot = λ e. cc;
  bytes = ground arith;
  no_slash = ground arith;
}

open_file-Answered_example :
    Answered self
      (file_at site_root (codes "index.html" ∷ []))
      (open_file memory_kernel example_dir (codes "index.html" ∷ []))
open_file-Answered_example =
    open_file-Answered self memory_kernel memory_kernel-IsPosix example_dir
      (codes "index.html" ∷ []) (example_name, tt)
