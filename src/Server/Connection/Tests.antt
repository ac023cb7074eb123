-- ===== src/Server/Connection/Tests.antt =====
-- A connection that asks for a page.
use statika.Fs.{open_file}
use statika.Prelude.{
  refl, true, false, none, [], ok, err, ◌∷◌, ◌≡◌, if◌then◌else◌, ℕ, List, Result, arith,
}
use statika.Prelude.Bytes.{Bytes, Text, codes, equal}
use statika.Prelude.Int.{pos}
use statika.Io.{IoError, io_error, ErrorKind}
use statika.Config.{Config}
use statika.Http.Types.{Method, Request, DecodedPath}
use statika.Net.{Socket, wrote, moved}
use statika.Server.Policy.{Metadata, starts_with_components, contains_denied_dotfile}
use statika.Server.Representation.{RepresentationEncoding, open_representation}
use statika.Server.Connection.{Clock}
use statika.Server.Connection.Locate.{Root, Found, locate}
use statika.Server.Connection.Handle.{handle_connection}
use statika.Server.Connection.Located.{Located}
use statika.Config.Components.{IsEntryName}
use statika.Http.Target.{decode_target}
use statika.Fs.Tree.{Node, entry_named}
use statika.Server.Connection.Rooted.{Rooted, locate-Rooted}
use statika.Fs.Memory.{memory_kernel, site_root, memory_kernel-IsPosix}

abbrev one_page : List Bytes → Result IoError ℕ
one_page (name ∷ []) =
    if equal name (codes "index.html") then ok 1 else err (io_error ErrorKind.not_found)
one_page _ = err (io_error ErrorKind.not_found)

abbrev page_data : Metadata
page_data = record { ino = 7; len = 3; mtime = pos 5; mtime_nsec = pos 0 }

abbrev page_root : Root ℕ
page_root = record {
  open_file = one_page;
  metadata = λ file. ok page_data;
  answers = λ file. record { transfers = moved (codes "abc") ∷ []; reads = [] };
}

abbrev page_config : Config Text
page_config = record {
  listen_addr = codes "0.0.0.0:8080";
  root = codes "/srv";
  index = codes "index.html" ∷ [];
  assets_prefix = codes "assets" ∷ [];
  threads = 4;
  queue_size = 256;
  gzip_enabled = true;
  brotli_enabled = true;
  deny_dotfiles = true;
  request_timeout = 5;
  shutdown_timeout = 10;
  extra_headers = [];
}

abbrev page_request : Request
page_request = record {
  method = Method.get;
  target = codes "/some/page";
  accepted_encodings = record { br_q = 0; gzip_q = 1000 };
  if_none_match = none;
  if_modified_since = none;
}

abbrev page_path : DecodedPath
page_path = record { components = codes "some" ∷ codes "page" ∷ []; trailing_slash = false }

abbrev page_found : Found ℕ
page_found = record {
  file = 1;
  served_components = codes "index.html" ∷ [];
  encoding = RepresentationEncoding.identity;
  fallback = true;
}

abbrev page_clock : Clock
page_clock = record { taken_up = 1; instant = 1; unix_seconds = pos 0 }

abbrev page_socket : Socket
page_socket = record { sent = []; writes = wrote 4096 ∷ []; rounds = [] }

-- The page is only asked about.
abbrev page_head : Request
page_head = record {
  method = Method.head;
  target = codes "/some/page";
  accepted_encodings = record { br_q = 0; gzip_q = 1000 };
  if_none_match = none;
  if_modified_since = none;
}

abbrev tree_root : Root Node
tree_root = record {
  open_file = open_file memory_kernel (record { fd = site_root });
  metadata = λ file. ok page_data;
  answers = λ file. record { transfers = moved (codes "abc") ∷ []; reads = [] };
}

index_name : IsEntryName (codes "index.html")
index_name = record {
  some_byte = λ e. cc;
  not_dot = λ e. cc;
  not_dot_dot = λ e. cc;
  bytes = ground arith;
  no_slash = refl;
}

abbrev some_page : Found Node
some_page = record {
  file = Node.file (codes "hello");
  served_components = codes "index.html" ∷ [];
  encoding = RepresentationEncoding.identity;
  fallback = true;
}

tree_located : locate tree_root page_config page_request page_path ≡ ok some_page
unfolding handle_connection open_representation contains_denied_dotfile starts_with_components
    open_file memory_kernel entry_named equal
tree_located = refl

page_decoded : decode_target (codes "/some/page") ≡ ok page_path
unfolding decode_target
page_decoded = refl

locate-Rooted_example : Rooted (λ n. n) site_root some_page
locate-Rooted_example =
    locate-Rooted (λ n. n) memory_kernel memory_kernel-IsPosix (record { fd = site_root }) tree_root
      refl page_config (index_name, tt) page_request (codes "/some/page") page_decoded tree_located
