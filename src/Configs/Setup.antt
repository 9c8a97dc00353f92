-- ===== src/Configs/Setup.antt =====
-- internal/configs/configs.go: a stored configuration is there for the next start.
use netbula.Base.{String, ◌≡◌, inl, inr, none, arith}
use netbula.Base.Result.{ok, Result-cases}
use netbula.Store.Persistent.{Codec, IsCodec}
use netbula.Configs.{
  Files, IsFiles, store_config_to_file, get_config_from_file, standard_permission,
  read_write_permission,
}

module _ (F : Files) (law : IsFiles F) {V : Type 0} (C : Codec V) (json : IsCodec C) where
  -- A configuration that is stored without an error is what the next start reads from that file.
  pub get_config_from_file-store_config_to_file :
      (dir file : String) (config : V) (fs fs' : F.Fs)
      → store_config_to_file F C dir file config fs ≡ (fs', none)
      → get_config_from_file F C dir file fs' ≡ ok config
  unfolding store_config_to_file get_config_from_file
  get_config_from_file-store_config_to_file dir file config fs fs' h =
      elim (Result-cases (C.marshal config)) [
        | inl (e, p) ↦ absurd (ground arith)
        | inr (encoded, p) ↦
            let made = (F.mkdir_all dir standard_permission fs).0 in
            ground (
              arith,
              json.unmarshal-marshal config encoded p,
              law.read_file-write_file (F.join dir file) encoded read_write_permission made fs',
            )
      ]
