-- ===== src/Server/Log/Tests.antt =====
-- Lines of the log.
use statika.Prelude.{refl, true, some, [], ◌∷◌, ◌≡◌, ◌++◌}
use statika.Server.Log.Objects.{request, Event, IsObject, fields_of, line_of, line_of-IsObject}
use statika.Http.Types.{code, Status}
use statika.Server.Log.{log_stopped, log_request}
use statika.Server.Connection.{RequestOutcome}
use statika.Prelude.Bytes.{Text, codes}
use statika.Server.Policy.{escape_json}
use statika.Prelude.Radix.{to_decimal}

abbrev quoted_path : RequestOutcome
quoted_path = record {
  method = codes "GET";
  path = codes "/a\"b";
  status = Status.not_found;
  bytes = 10;
  error = some (codes "not_found");
}

quoted_line :
    log_request (some (codes "10.0.0.1:80")) quoted_path 2500000
    ≡ codes
        "{\"event\":\"request\",\"remote\":\"10.0.0.1:80\",\"method\":\"GET\",\"path\":\"/a\\\"b\",\"status\":404,\"bytes\":10,\"duration_ms\":2,\"error\":\"not_found\"}"
      ++ 10 ∷ []
unfolding log_request escape_json to_decimal code
quoted_line = refl

stopped_line : log_stopped true ≡ codes "{\"event\":\"stopped\",\"clean\":true}" ++ 10 ∷ []
unfolding log_stopped
stopped_line = refl

abbrev quoted_event : Event Text
quoted_event = request (some (codes "10.0.0.1:80")) quoted_path 2500000

line_of-IsObject_example :
    IsObject (fields_of (λ addr. addr) quoted_event) (line_of (λ addr. addr) quoted_event)
line_of-IsObject_example = line_of-IsObject (λ addr. addr) quoted_event
