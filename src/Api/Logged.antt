-- ===== src/Api/Logged.antt =====
-- `log_request` of app/main.py, the middleware around every request: the request id is bound for the
-- log lines of the request, is sent in the header "X-Request-ID", and is unbound in the end.
use langgraph_temporal_agent.Prelude.{◌∷◌, some, none, ℕ, Option, List, filter, not}
use langgraph_temporal_agent.Text.{Text, codes, text_eq, lower}

pub record HttpResponse : Type 0 where
  pub status_code : ℕ
  pub headers : List (Text × Text)

pub record RequestLine : Type 0 where
  pub request_id : Option Text
  pub method : Text
  pub path : Text
  pub status_code : ℕ

-- What a request leaves: the response, or `none` for an exception, the context variable
-- `request_id`, the lines "request_completed" of the log, the newest first, and the world.
pub record Logged (W : Type 0) : Type 0 where
  pub response : Option HttpResponse
  pub context : Option Text
  pub lines : List RequestLine
  pub world : W

-- `response.headers[name] = value`
abbrev pub set_header : Text → Text → HttpResponse → HttpResponse
set_header name value r = record r {
  headers = (name, value) ∷ filter (λ h. not (text_eq (lower h.0) (lower name))) r.headers;
}

module _ {W : Type 0} (call_next : Option Text → Text → Text → W → Option HttpResponse × W) where
  logged_response : Text → Text → Text → List RequestLine → Option HttpResponse × W → Logged W
  logged_response request_id method path lines (none, w) = record {
    response = none;
    context = none;
    lines = lines;
    world = w;
  }
  logged_response request_id method path lines (some r, w) = record {
    response = some (set_header (codes "X-Request-ID") request_id r);
    context = none;
    lines =
        record {
          request_id = some request_id;
          method = method;
          path = path;
          status_code = r.status_code;
        }
        ∷ lines;
    world = w;
  }

  -- `request_id` is `str(uuid4())`; the handlers run with it in their context.
  unfoldable pub log_request : Text → Text → Text → Logged W → Logged W
  unfolding logged_response
  log_request request_id method path s =
      logged_response request_id method path s.lines
        (call_next (some request_id) method path s.world)
