-- ===== src/Cmd/Orders.antt =====
-- cmd/control.go, cmd/control, and internal/app/manager/api.go at the other end: what `stop` does
-- after the settings of the control program were given once.
use netbula.Base.{ℕ, String, ◌≡◌, ◌≢◌, ◌⊎◌, inl, inr, none, some, List, ◌∷◌, arith, string_eq}
use netbula.Base.Result.{Err, Result, err, Result-cases}
use netbula.Store.Persistent.{Codec, IsCodec}
use netbula.Task.{TaskEvent}
use netbula.Uuids.{IsUuids}
use netbula.Queue.{IsFifo}
use netbula.Configs.{Files, IsFiles, ControlConfig, new_control_config}
use netbula.Manager.Core.{Parts, Manager}
use netbula.Control.Api.{Https, task_url, stop_task}
use netbula.Control.Remote.{IsApi, Stopped, stop_task-Stopped}
use netbula.Cmd.Settings.{Stores, run-none, control_cmd-all}
use netbula.Cmd.Control.{settings_lines, control_cmd, stop_cmd}

module _ (P : Parts) (ids : IsUuids P.uuids) (fifo : IsFifo P.queue) where
  module _ (F : Files) (law : IsFiles F) (J : Codec ControlConfig) (json : IsCodec J) (H : Https)
      (manager_at : H.World → Manager P) (auth_token address : String)
      (decode : String → Result TaskEvent) (api : IsApi P H manager_at auth_token address decode)
      (token fingerprint : String) (address_ne : address ≢ "") (token_ne : token ≢ "")
      (fingerprint_ne : fingerprint ≢ "") (fs fs' : F.Fs)
      (stored : Stores F J address token fingerprint fs fs') where
    -- After the address of a manager, a token and a fingerprint were given, none of them empty, and
    -- could be stored, `stop` with an id in its usual form changes no file of the control program, and
    -- either it ends since its request is not answered, or it has ordered at that manager: exactly
    -- one event, that stops the task with this id, is put at the end of the queue; or the token is
    -- not the manager's or no task with this id is stored, and the manager stays as it is.
    -- The manager stands behind the address, and a request that is answered was handled once.
    pub control_cmd-stop_cmd :
        (id : ℕ) (args : List String) (world : H.World)
        → let task_id = P.uuids.to_string id in
          (control_cmd F J address token fingerprint fs
            ≡ some (fs', settings_lines (new_control_config address token fingerprint)))
          × (((stop_cmd F J H (task_id ∷ args) fs' world ≡ none)
                × (e : Err) × ((H.request fingerprint "DELETE"
                      (task_url address task_id)
                      token
                      ""
                      world).1
                    ≡ err e))
              ⊎ ((world' : H.World) × (stop_cmd F J H (task_id ∷ args) fs' world
                    ≡ some (fs', world'))
                  × Stopped P ids fifo auth_token token id (manager_at world) (manager_at world')))
    unfolding stop_cmd stop_task new_control_config
    control_cmd-stop_cmd id args world =
        let task_id = P.uuids.to_string id in
        let url = task_url address task_id in
        let again =
          run-none F law J json address token fingerprint address_ne token_ne fingerprint_ne fs fs'
            stored in
        (
          control_cmd-all F law J json address token fingerprint address_ne token_ne fingerprint_ne
              fs fs' stored,
          elim (Result-cases (H.request fingerprint "DELETE" url token "" world).1) [
            | inl (e, p) ↦ inl (ground (arith, again), e, p)
            | inr (resp, p) ↦
                let world' = (H.request fingerprint "DELETE" url token "" world).0 in
                inr (
                  world',
                  ground (arith, again),
                  stop_task-Stopped P ids fifo H manager_at auth_token address decode api token
                      fingerprint id world world' (ground arith),
                )
          ],
        )
