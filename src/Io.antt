-- ===== src/Io.antt =====
-- The errors of `std::io`: a kind, and the number of the system call that failed, by the names of
-- libc that the program compares it with.
use statika.Prelude.{Bool, true, false, Option, none}

pub data ErrorKind : Type 0 where
  not_found permission_denied not_a_directory invalid_input : ErrorKind
  interrupted would_block timed_out broken_pipe write_zero unexpected_eof other : ErrorKind

pub data Errno : Type 0 where
  einval enosys eloop emfile enfile : Errno
  enetdown eproto enoprotoopt ehostdown enonet ehostunreach : Errno
  eopnotsupp enetunreach econnaborted : Errno
  other : Errno

pub record IoError : Type 0 where
  pub kind : ErrorKind
  pub raw_os_error : Option Errno

-- `io::Error::new`
abbrev pub io_error : ErrorKind → IoError
io_error kind = record { kind = kind; raw_os_error = none }

-- A plain answer of a nonblocking call, by what the callers do with an error.
unfoldable pub is_interrupted : IoError → Bool
is_interrupted e = elim e.kind [ ErrorKind.interrupted ↦ true | _ ↦ false ]

unfoldable pub is_would_block : IoError → Bool
is_would_block e = elim e.kind [ ErrorKind.would_block ↦ true | _ ↦ false ]

unfoldable pub is_timed_out : IoError → Bool
is_timed_out e = elim e.kind [ ErrorKind.timed_out ↦ true | _ ↦ false ]
