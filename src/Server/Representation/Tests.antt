-- ===== src/Server/Representation/Tests.antt =====
-- A root with a plain file and its gzip sidecar.
use statika.Prelude.{refl, true, [], ok, err, ◌∷◌, ◌≡◌, if◌then◌else◌, ℕ, List, Result}
use statika.Io.{IoError, io_error, ErrorKind}
use statika.Prelude.Bytes.{Bytes, codes, equal}
use statika.Http.Types.{AcceptedEncodings}
use statika.Server.Representation.{RepresentationEncoding, open_representation}
use statika.Server.Representation.Choice.{Chosen, open_representation-Chosen}

abbrev example_root : List Bytes → Result IoError ℕ
example_root [] = err (io_error ErrorKind.other)
example_root (name ∷ names) =
    if equal name (codes "a.js")
    then ok 1
    else if equal name (codes "a.js.gz")
    then ok 2
    else err (io_error ErrorKind.not_found)

abbrev both_accepted : AcceptedEncodings
both_accepted = record { br_q = 1000; gzip_q = 500 }

gzip_opened :
    open_representation example_root (codes "a.js" ∷ []) both_accepted true true
    ≡ ok (2, RepresentationEncoding.gzip)
unfolding open_representation equal
gzip_opened = refl

open_representation-Chosen_example :
    Chosen example_root (codes "a.js" ∷ []) both_accepted true true (2, RepresentationEncoding.gzip)
open_representation-Chosen_example =
    open_representation-Chosen example_root (codes "a.js" ∷ []) both_accepted true true gzip_opened
