-- ===== src/Tests/Remotes.antt =====
-- Runs of the control program in front of a manager.
use netbula.Base.{
  ℕ, String, ◌≡◌, refl, sym, subst, inl, inr, true, Option, none, some, List, [], ◌∷◌, arith, ◌==◌,
  ==-refl, string_eq, nat_eq, if◌then◌else◌, Option-cases,
}
use netbula.Base.Result.{Result, ok, err, fresh}
use netbula.Task.{scheduled, completed, Task, TaskEvent}
use netbula.Http.{Reply, Payload, error, text, one_task, many_tasks, many_nodes, stats, worker_info}
use netbula.Manager.Cluster.{Response}
use netbula.Manager.Core.{Manager}
use netbula.Manager.Api.{Request, tasks_post, tasks_get, tasks_delete, nodes_get, authenticate}
use netbula.Fleet.{status_of}
use netbula.Control.Api.{Https}
use netbula.Control.Remote.{Written, Read, body_of, IsApi}
use netbula.Tests.Examples.{linked_state, ok-injective}
use netbula.Tests.Fleets.{is_job, is_job-eq, behind, behind-append}
use netbula.Tests.Orders.{manager_parts, request}
use netbula.Tests.Samples.{job, unary}

abbrev pub decode : String → Result TaskEvent
decode body = if body == "{request}" then ok request else err (fresh "unexpected end of JSON input")

abbrev parsed : String → String → String → Request
parsed method url body =
    if method == "DELETE"
    then tasks_delete (behind "https://m:81/tasks/" url)
    else (if method == "POST"
        then tasks_post (decode body)
        else (if url == "https://m:81/tasks" then tasks_get else nodes_get))

abbrev encoded : ℕ → Option Payload → Result Response
encoded s (some (many_tasks (t ∷ []))) =
    if is_job t
    then ok (record { status_code = s; body = "[job]" })
    else err (fresh "connection reset")
encoded s (some (many_tasks ts)) = err (fresh "connection reset")
encoded s payload = ok (record { status_code = s; body = "" })

abbrev decode_tasks : String → Result (List Task)
decode_tasks b =
    if b == "[job]" then ok (job scheduled ∷ []) else err (fresh "unexpected end of JSON input")

abbrev perform : Manager manager_parts → String → Request → Manager manager_parts × Result Response
perform m token r = elim (authenticate manager_parts "secret" m token r 8 0) [
  | none ↦ (m, err (fresh "EOF"))
  | some (n, replies) ↦ (n, encoded (status_of replies) (body_of replies))
]

abbrev pub near : Https
near = record {
  World = Manager manager_parts;
  request = λ cert_fingerprint method url token body m. perform m token (parsed method url body);
  decode_tasks = decode_tasks;
  decode_nodes = λ b. ok [];
}

encoded_job :
    (s : ℕ) (t : Task) (resp : Response)
    → encoded s (some (many_tasks (t ∷ []))) ≡ ok resp
    → (resp.status_code ≡ s) × (decode_tasks resp.body ≡ ok (t ∷ []))
encoded_job s t resp h =
    let same : ◌==◌ {A = String} "[job]" "[job]" ≡ true = ==-refl {A = String} "[job]" in
    (ground arith, ground (arith, is_job-eq t))

encoded-Read :
    (s : ℕ) (payload : Option Payload) (resp : Response)
    → encoded s payload ≡ ok resp
    → (resp.status_code ≡ s) × Read (decode_tasks resp.body) payload
unfolding string_eq
encoded-Read s none resp h = ground arith
encoded-Read s (some (many_tasks [])) resp h = absurd (ground arith)
encoded-Read s (some (many_tasks (t ∷ []))) resp h = encoded_job s t resp h
encoded-Read s (some (many_tasks (t ∷ u ∷ ts))) resp h = absurd (ground arith)
encoded-Read s (some (error e)) resp h =
    (ground arith, (fresh "unexpected end of JSON input", rw (sym (ok-injective h)) refl))
encoded-Read s (some (text e)) resp h =
    (ground arith, (fresh "unexpected end of JSON input", rw (sym (ok-injective h)) refl))
encoded-Read s (some (one_task t)) resp h = ground arith
encoded-Read s (some (many_nodes ns)) resp h = ground arith
encoded-Read s (some (stats x)) resp h = ground arith
encoded-Read s (some (worker_info n u)) resp h = ground arith

performed :
    (m : Manager manager_parts) (token : String) (r : Request) (resp : Response)
    → (perform m token r).1 ≡ ok resp
    → (replies : List Reply) × (authenticate manager_parts "secret" m token r 8 0
        ≡ some ((perform m token r).0, replies))
      × (resp.status_code ≡ status_of replies)
      × Read (decode_tasks resp.body) (body_of replies)
performed m token r resp h =
    elim (Option-cases (authenticate manager_parts "secret" m token r 8 0)) [
      | inl e ↦ absurd (ground arith)
      | inr ((n, replies), e) ↦
          let sent : encoded (status_of replies) (body_of replies) ≡ ok resp = ground arith in
          let (s, read) = encoded-Read (status_of replies) (body_of replies) resp sent in
          (replies, ground arith, s, read)
    ]

-- What is written is parsed as what it was written for.
parsed-Written :
    (r : Request) (method url body : String)
    → Written unary decode "m:81" r method url body
    → parsed method url body ≡ r
unfolding string_eq
parsed-Written (tasks_post te) method url body (m, u, b) = rw (m, b) refl
parsed-Written tasks_get method url body (m, u, b) = rw (m, u) refl
parsed-Written (tasks_delete task_id) method url body (m, u, b, id, canonical) =
    rw (m, u, behind-append "https://m:81/tasks/" task_id) refl
parsed-Written nodes_get method url body (m, u, b) = rw (m, u) refl

pub near-IsApi : IsApi manager_parts near (λ m. m) "secret" "m:81" decode
near-IsApi = record {
  answered = λ cert_fingerprint method url token body request m resp written p.
      let same = parsed-Written request method url body written in
      let (replies, done, status, read) = performed m token (parsed method url body) resp p in
      (
        8,
        0,
        replies,
        subst
            (λ r.
              authenticate manager_parts "secret" m token r 8 0
              ≡ some ((perform m token (parsed method url body)).0, replies))
            same done,
        status,
        read,
      );
}

abbrev pub stored : Manager manager_parts
stored = record {
  state = linked_state;
  worker_cluster = record { worker_client_map = []; worker_nodes = []; notices = [] };
  pending = [];
  scheduler = tt;
  world = tt;
}

abbrev pub stopping : Manager manager_parts
stopping = record stored {
  pending = record { id = 8; target_state = completed; timestamp = 0; task = job scheduled } ∷ [];
}
