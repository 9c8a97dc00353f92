-- ===== src/Cmd/Listing.antt =====
-- cmd/control/tasks.go, and internal/app/manager/api.go at the other end: the tasks that are shown.
use netbula.Base.{
  ℕ, String, ◌≡◌, ◌≢◌, refl, ◌⊎◌, inl, inr, none, some, List, [], ◌∷◌, ◌<>◌, false, subst, arith,
  ◌==◌, ==-eq, ==-refl, string_eq, Bool-cases,
}
use netbula.Base.Result.{Err, Result, ok, err, Result-cases}
use netbula.Store.Persistent.{Codec, IsCodec}
use netbula.Uuids.{Uuids}
use netbula.Task.{Task, TaskEvent}
use netbula.Task.Text.{to_int, state_to_string, string_to_state, string_to_state-to_int}
use netbula.Http.{Reply, error, text, many_tasks}
use netbula.Configs.{Files, IsFiles, ControlConfig, new_control_config}
use netbula.Manager.State
use netbula.Manager.Cluster.{Response}
use netbula.Manager.Core.{Parts, Manager}
use netbula.Manager.Api.{tasks_get, authenticate, route, get_tasks_handler}
use netbula.Control.Api.{Https, tasks_url, get_tasks}
use netbula.Control.Remote.{IsApi, Read, body_of}
use netbula.Cmd.Settings.{Stores, run-none, control_cmd-all}
use netbula.Cmd.Control.{
  Format, Table, created, task_row, task_rows, print_tasks_in_table, settings_lines, control_cmd,
  tasks_cmd,
}

-- One row of the table shows one task; the time is that since its start, if it has one, at some
-- reading of the clock.
module _ (U : Uuids) (T : Format) (clock : ℕ → ℕ) where
  abbrev pub ShownRow : Task → List String → Type 0
  ShownRow t row =
      (age : String) × (task_state : String) × (row
        ≡ U.to_string t.id ∷ t.name ∷ age ∷ task_state ∷ t.name ∷ t.image ∷ [])
      × (string_to_state task_state ≡ ok t.state)
      × (T.is_zero t.start_time ≡ false
          → (n : ℕ) × (age ≡ T.human_duration (clock n) t.start_time <> " ago"))

  -- One row for each task, in order.
  abbrev pub Shown : List Task → Table → Type 0
  Shown [] [] = Unit
  Shown (t ∷ ts) (row ∷ rows) = ShownRow t row × Shown ts rows
  Shown _ _ = ⊥

  task_row-ShownRow : (n : ℕ) (t : Task) → ShownRow t (task_row U T clock n t).1
  unfolding task_row created
  task_row-ShownRow n t = (
    (created U T clock n t).1,
    state_to_string (to_int t.state),
    refl,
    string_to_state-to_int t.state,
    λ started. (n, ground arith),
  )

  task_rows-Shown : (n : ℕ) (ts : List Task) → Shown ts (task_rows U T clock n ts)
  unfolding task_rows
  task_rows-Shown n [] = tt
  task_rows-Shown n (t ∷ ts) =
      (task_row-ShownRow n t, task_rows-Shown (task_row U T clock n t).0 ts)

module _ (P : Parts) where
  -- The answer to a request for the tasks, as it is read: the tasks that the manager's store lists,
  -- or an error, since the token is wrong or the store cannot be listed.
  abbrev Listed : String → String → Manager P → Manager P → Result (List Task) → Type 0
  Listed auth_token token m n decoded =
      ((ts : List Task) × (token ≡ auth_token)
        × (netbula.Manager.State.get_tasks P.uuids P.stores m.state ≡ ok ts)
        × (n ≡ m)
        × (decoded ≡ ok ts))
      ⊎ ((x : Err) × (decoded ≡ err x)
          × ((token ≡ auth_token)
              → (e : Err) × (netbula.Manager.State.get_tasks P.uuids P.stores m.state ≡ err e)))

  authenticate-Listed :
      (auth_token token : String) (m n : Manager P) (fresh_id now : ℕ) (replies : List Reply)
      (decoded : Result (List Task))
      → authenticate P auth_token m token tasks_get fresh_id now ≡ some (n, replies)
      → Read decoded (body_of replies)
      → Listed auth_token token m n decoded
  unfolding authenticate route get_tasks_handler
  authenticate-Listed auth_token token m n fresh_id now replies decoded h read =
      elim (Bool-cases (token == auth_token)) [
        | inr a ↦
            let refused : body_of replies ≡ some (text "Unauthorized") = ground arith in
            let (e, p) = subst (Read decoded) refused read in
            inr (e, p, λ same. absurd (ground (arith, ==-refl token)))
        | inl a ↦ elim (Result-cases (netbula.Manager.State.get_tasks P.uuids P.stores m.state)) [
          | inl (f, g) ↦
              let failed : body_of replies ≡ some (error "failed to get tasks from TaskDb") =
                ground arith in
              let (e, p) = subst (Read decoded) failed read in inr (e, p, λ same. (f, g))
          | inr (ts, g) ↦
              let listed : body_of replies ≡ some (many_tasks ts) = ground arith in
              let p = subst (Read decoded) listed read in
              inl (ts, ==-eq token auth_token a, g, ground arith, p)
        ]
      ]

  module _ (F : Files) (law : IsFiles F) (J : Codec ControlConfig) (json : IsCodec J) (H : Https)
      (manager_at : H.World → Manager P) (auth_token address : String)
      (decode : String → Result TaskEvent) (api : IsApi P H manager_at auth_token address decode)
      (token fingerprint : String) (address_ne : address ≢ "") (token_ne : token ≢ "")
      (fingerprint_ne : fingerprint ≢ "") (fs fs' : F.Fs)
      (stored : Stores F J address token fingerprint fs fs') where
    -- After the address of a manager, a token and a fingerprint were given, none of them empty, and
    -- could be stored, `tasks` changes no file of the control program, and if its request is
    -- answered, then the token is the manager's, and it shows a table with one row for each task that
    -- the manager's store lists, in that order, with its id, name, state and image and, if it has a
    -- start time, the time since then, and leaves the manager as it is; or it panics, and then the
    -- token is not the manager's or the store cannot be listed. The manager stands behind the
    -- address, a request that is answered was handled once, and an error or a text is no list of
    -- tasks.
    pub control_cmd-tasks_cmd :
        (U : Uuids) (T : Format) (clock : ℕ → ℕ) (world : H.World) (resp : Response)
        → (H.request fingerprint "GET" (tasks_url address) token "" world).1 ≡ ok resp
        → let listed = netbula.Manager.State.get_tasks P.uuids P.stores (manager_at world).state in
          (control_cmd F J address token fingerprint fs
            ≡ some (fs', settings_lines (new_control_config address token fingerprint)))
          × (((ts : List Task) × (rows : Table) × (world' : H.World) × (token ≡ auth_token)
                × (listed ≡ ok ts)
                × (tasks_cmd F J H U T clock fs' world
                    ≡ some (
                      fs',
                      world',
                      ("ID" ∷ "NAME" ∷ "CREATED" ∷ "STATE" ∷ "CONTAINER NAME" ∷ "IMAGE" ∷ [])
                          ∷ rows,
                    ))
                × Shown U T clock ts rows
                × (manager_at world' ≡ manager_at world))
              ⊎ ((tasks_cmd F J H U T clock fs' world ≡ none)
                  × ((token ≡ auth_token) → (e : Err) × (listed ≡ err e))))
    unfolding tasks_cmd print_tasks_in_table get_tasks new_control_config
    control_cmd-tasks_cmd U T clock world resp answered =
        let (fresh_id, time, replies, done, status, read) =
          api.answered fingerprint "GET" (tasks_url address) token "" tasks_get world resp
            (refl, refl, refl) answered in
        let again =
          run-none F law J json address token fingerprint address_ne token_ne fingerprint_ne fs fs'
            stored in
        let world' = (H.request fingerprint "GET" (tasks_url address) token "" world).0 in
        (
          control_cmd-all F law J json address token fingerprint address_ne token_ne fingerprint_ne
              fs fs' stored,
          elim (authenticate-Listed auth_token token (manager_at world) _ fresh_id time replies
              (H.decode_tasks resp.body) done read) [
                | inl (ts, right, listed, same, p) ↦ inl (
                  ts,
                  task_rows U T clock 0 ts,
                  world',
                  right,
                  listed,
                  ground (arith, again),
                  task_rows-Shown U T clock 0 ts,
                  same,
                )
                | inr (x, p, why) ↦ inr (ground (arith, again), why)
              ],
        )
