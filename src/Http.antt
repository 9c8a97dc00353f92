-- ===== src/Http.antt =====
-- lib/routers/helpers.go: what a handler writes to its `http.ResponseWriter`, as the list of the
-- replies in the order in which it writes them; the first one sets the status.
use netbula.Base.{ℕ, String, Option, none, some, List, [], ◌∷◌, ◌++◌}
use netbula.Node.{Node, Stats}
use netbula.Task.{Task}

pub data Payload : Type 0 where
  error : String → Payload
  one_task : Task → Payload
  many_tasks : List Task → Payload
  many_nodes : List Node → Payload
  stats : Stats → Payload
  worker_info : String → ℕ → Payload
  text : String → Payload

pub record Reply : Type 0 where
  pub status_code : ℕ
  pub body : Option Payload

abbrev pub status_ok : ℕ
status_ok = 200

abbrev pub status_created : ℕ
status_created = 201

abbrev pub status_no_content : ℕ
status_no_content = 204

abbrev pub status_bad_request : ℕ
status_bad_request = 400

abbrev pub status_unauthorized : ℕ
status_unauthorized = 401

abbrev pub status_not_found : ℕ
status_not_found = 404

abbrev pub status_internal_server_error : ℕ
status_internal_server_error = 500

abbrev pub respond_json : List Reply → ℕ → Payload → List Reply
respond_json w status_code payload =
    w ++ record { status_code = status_code; body = some payload } ∷ []

abbrev pub respond_error : List Reply → ℕ → String → List Reply
respond_error w status_code error_message = respond_json w status_code (error error_message)

-- `responseWriter.WriteHeader(status)` with no body.
abbrev pub write_header : List Reply → ℕ → List Reply
write_header w status_code = w ++ record { status_code = status_code; body = none } ∷ []
