-- ===== src/Lib.antt =====
-- Statika, a static file server: a model of its Rust code, and theorems about it.
--
-- A connection goes through the program in this order. The accept loop puts it into the bounded
-- `WorkQueue` (src/server.rs), with a deadline, and a worker takes it out. The worker reads the
-- request head, and `parse_request` and `decode_target` (src/http.rs) make a request and a list of
-- path components of it. `open_representation` (src/server.rs) opens the file or a compressed
-- sidecar below the root directory (src/fs.rs). `response_head` (src/http.rs) writes the head of the
-- response, and `write_all` and `send_file` (src/net.rs) put the head and the body on the
-- nonblocking socket. The settings come from the environment, by `Config::from_env`
-- (src/config.rs).
--
-- The modules and the code:
--   Config: the types of src/config.rs and the environment, a function from a variable's name to its
--     bytes. Config/Values, Config/Paths and Config/ExtraHeaders are its parsers, by their own names,
--     Config/FromEnv is `Config::from_env`, and Config/Display how an error prints.
--     Config/Components, Config/Headers and Config/Bounds are about the settings that are accepted.
--   Fs: `RootDir` of src/fs.rs, over the answers of `open`, `openat`, `fcntl` and `fstat`. Fs/Tree is
--     the tree of names that the document root holds and what POSIX and Linux document of the calls
--     on it, Fs/Memory such a tree with calls that answer so, and Fs/Refines the proof.
--   Http: src/http.rs. Http/Read is `read_request`, Http/Parse `parse_request`, Http/Target
--     `decode_target`, Http/Encodings `accepted_encodings`, Http/Date the dates and Http/Response
--     `response_head`, each with its proofs below it; Http/Types holds the types. In
--     Http/Encodings, Spelling and Items are the texts that a client may write.
--   Io: what the program looks at in an error of `std::io`.
--   Net: src/net.rs, with proofs in its WaitFd, WriteAll, SendFile and Returns.
--   Server/Queue: `WorkQueue` and `discard_expired`. A call of `push` or `pop` is a sequence of
--     rounds, each with the mutex held between two waits; `Step` and `Reach` of Server/Queue/Reach
--     interleave the rounds of all threads.
--   Server/Policy: the choices that `serve_static` makes from the path, the settings and the file's
--     metadata, and `escape_json` of the log, with proofs in its Dotfiles, Json, Etag and Revalidate.
--   Server/Representation: `open_representation` and `open_compressed`, with the path helpers and
--     `is_not_found` of src/fs.rs. A root directory is what its `open_file` answers for a path, and
--     it does not change while one call runs.
--   Server/Connection: `simple_error`, `simple_response` and the outcome that is logged, on the socket
--     of Net. Server/Connection/Locate is the part of `serve_static` that settles on a file, and
--     Server/Connection/Handle the rest of it and `handle_connection`; what `read_request` answers,
--     the clock's readings and the metadata of a file are arguments. Its Sent, Written, Named, Answer,
--     Responses and Located hold the proofs, and Rooted puts `RootDir` in the place of the root.
--   Server/Accept: `accept_loop`, `configure_stream` and `sleep_until_shutdown`, with proofs in its
--     Stops, Returns and Sleep. Server/Accept/System is the accept loop, the rounds of the queue,
--     the signal and the closing as moves of one system, under one clock and one flag.
--   Server/Workers: `worker_loop` and `join_workers`, with the proofs in its
--     Handled, Heard and Joined. A worker reads and answers by `read_request` and `handle_connection`.
--   Server/Log: the lines of the log, as JSON objects in Server/Log/Objects.
--   Server/Run: `run` and `install_signal_handlers`, with the proof in Server/Run/Ran. What its thread
--     does is a list of events: the lines that it logs, and the closing of the queue, which is an
--     argument as the accept loop leaves it.
--   Main: `main` of src/main.rs, with the proof in Main/Exits.
--   Prelude: bytes, texts, numbers and results. A text is the list of its code points, and what the
--     program calls of Rust's slices, strings and numbers is written out in Prelude/Bytes,
--     Prelude/Utf8, Prelude/Encode, Prelude/Radix, Prelude/Hex and Prelude/Int.
--
-- Bounds. Printing a number takes at most 64 rounds, one for each digit, which is enough for 64
-- bits in any radix. Decoding UTF-8 takes as many rounds as there are bytes, and each takes one
-- byte at least. The loops of net.rs, of the accept loop, of `join_workers` and of `read_request`
-- recurse on the answers that the system is yet to give, and `none` is a program that still waits
-- for the next; Net/Returns, Http/Read/Returns, Server/Accept/Returns and Server/Workers/Joined are
-- about how many answers are enough. The dates are those of 1970 to 9999, since `parse_http_date`
-- takes four digits.
--
-- Not modelled: the system itself. What its calls answer, the clock, the number of processors, the
-- order in which threads run and how addresses and errors print are arguments; that a directory
-- changes while one call walks through it is left out. `duplicate_fd`, `shutdown_signal`,
-- `wait_readable`, `wait_writable` and the accessors of the settings are each one call or one field.
pub mod Prelude
pub mod Io
pub mod Config
pub mod Http
pub mod Net
pub mod Fs
pub mod Server
pub mod Main
