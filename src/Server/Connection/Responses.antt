-- ===== src/Server/Connection/Responses.antt =====
-- What a connection is sent.
use statika.Prelude.Bytes.{Bytes}
use statika.Config.{Config}
