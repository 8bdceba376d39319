-- ===== src/Api/Streams.antt =====
-- The handlers of src/api/handlers.rs that stream, and those about the metrics.
use nexad.Prelude.{ℕ, Option, none, some, List, [], ◌∷◌, ◌++◌, map, Text, text}
use nexad.Str.Decimal.{show}
use nexad.Result.{NexaError, Result, ok, err}
use nexad.Events.Watcher.{ClusterEvent}
use nexad.Api.Response.{Response, status_ok, not_found, failure}

abbrev pub health : Text
health = text "ok"

-- a stream of events with their data, or a response
pub data Streamed : Type 0 where
  stream : List Text → Streamed
  response : Response (Unit {0}) → Streamed

module _ (display : NexaError → Text) where
  abbrev pub line_data : Result Text → Text
  line_data (ok line) = line
  line_data (err e) = text "error: " ++ display e

  abbrev pub streamed {ℓ} : {H : Type ℓ} → Result (List (Result Text)) × H → Streamed × H
  streamed (ok results, h) = (stream (map line_data results), h)
  streamed (err e, h) = (response (failure display not_found e), h)

  -- `pod_logs` is the orchestrator's call.
  unfoldable pub logs {ℓ} :
      {H : Type ℓ} (pod_logs : Text → Text → Option ℕ → H → Result (List (Result Text)) × H)
      (project name : Text) (tail : Option ℕ)
      → H
      → Streamed × H
  logs pod_logs project name tail h = streamed (pod_logs project name tail h)

-- what a receiver of the broadcast gets
pub data Received : Type 0 where
  event : ClusterEvent → Received
  lagged : ℕ → Received
  closed : Received

abbrev pub unwrap_or_default : Option Text → Text
unwrap_or_default none = []
unwrap_or_default (some t) = t

-- The stream ends where the channel is closed. `to_json` may fail.
unfoldable pub events_stream : (to_json : ClusterEvent → Option Text) → List Received → List Text
events_stream to_json [] = []
events_stream to_json (event e ∷ later) =
    unwrap_or_default (to_json e) ∷ events_stream to_json later
events_stream to_json (lagged n ∷ later) =
    (text "{\"warning\":\"missed " ++ (show n ++ text " events\"}")) ∷ events_stream to_json later
events_stream to_json (closed ∷ later) = []

pub record MetricsResponse : Type 0 where
  pub status : ℕ
  pub content_type : Option Text
  pub body : Text

-- what the metrics encode to, if they are those of Prometheus
unfoldable pub metrics_endpoint : Option Text → MetricsResponse
metrics_endpoint none = record {
  status = status_ok;
  content_type = none;
  body = text "# no prometheus metrics available\n";
}
metrics_endpoint (some encoded) = record {
  status = status_ok;
  content_type = some (text "text/plain; version=0.0.4");
  body = encoded;
}

-- The response of a handler, whose request is recorded with its status and duration, a number of 64
-- bits that `elapsed` is.
unfoldable pub metrics_middleware {ℓ κ} :
    {M : Type ℓ} {H : Type κ} {A : Type 0} (record_http_request : Text → Text → ℕ → ℕ → M → M)
    (next : H → Response A × H) (method path : Text) (elapsed : ℕ)
    → M
    → H
    → Response A × M × H
metrics_middleware record_http_request next method path elapsed m h =
    let (response_, after_) = next h in
    (response_, record_http_request method path response_.status elapsed m, after_)
