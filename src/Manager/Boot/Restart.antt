-- ===== src/Manager/Boot/Restart.antt =====
-- internal/app/manager/boot.go: `SetupConfig` over several starts.
use netbula.Base.{String, ◌≡◌, inl, inr, none, some, arith, Option-cases}
use netbula.Base.Int.{ℤ}
use netbula.Base.Result.{ok}
use netbula.Store.Persistent.{Codec, IsCodec}
use netbula.Security.{Crypto}
use netbula.Configs.{Files, IsFiles, ManagerConfig, store_config_to_file, get_config_from_file}
use netbula.Manager.Boot.{choose_config, setup_config}

module _ (F : Files) (law : IsFiles F) (J : Codec ManagerConfig) (json : IsCodec J) (C : Crypto)
    (dir file : String) where
  -- A setup that succeeds stored what it returns.
  pub setup_config-stored :
      (p q : ℤ) (fs fs' : F.Fs) (w w' : C.World) (config : ManagerConfig)
      → setup_config F J C dir file p q fs w ≡ some (fs', w', ok config)
      → (choose_config F J C (get_config_from_file F J dir file fs) p q w ≡ some (w', config))
        × (store_config_to_file F J dir file config fs ≡ (fs', none))
  unfolding setup_config
  setup_config-stored p q fs fs' w w' config h =
      elim (Option-cases (choose_config F J C (get_config_from_file F J dir file fs) p q w)) [
        | inl e ↦ absurd (ground arith)
        | inr ((v, chosen), e) ↦
            elim (Option-cases (store_config_to_file F J dir file chosen fs).1) [
              | inl n ↦ (ground arith, ground arith)
              | inr (f, n) ↦ absurd (ground arith)
            ]
      ]
