-- ===== src/Server/ConfigPath.antt =====
-- Where the configuration comes from (`resolveConfigPath`, `findConfigFile` and
-- `documentedConfigPath` of main.go, `Load` of config/config.go).
use aibap_mcp.Base.{
  ◌≡◌, Bool, ◌||◌, not, List, Text, bytes, is_empty, if◌then◌else◌, Result, ok, err, ◌>>=◌, arith,
}

-- `os.UserHomeDir`, `filepath.Join` of a directory and a relative path, and whether `os.Stat` of a
-- path succeeds.
pub record Files (F : Type 0) : Type 0 where
  pub user_home_dir : Result F Text
  pub join : Text → Text → Text
  pub stat : Text → Bool
  pub read_file : Text → Result F Text

pub data ConfigSource : Type 0 where
  sap_config_file auto_discovered : ConfigSource

pub data LoadError (F : Type 0) : Type 0 where
  reading : Text → F → LoadError F
  invalid parsing : F → LoadError F

module _ {F : Type 0} (files : Files F) where
  open files use {user_home_dir, join, stat, read_file}

  unfoldable pub documented_config_path : Result F Text
  documented_config_path = do
    home ← user_home_dir
    ok (join home (bytes ".config/sap-mcp/systems.json"))

  abbrev config_json : Text
  config_json = bytes "config.json"

  unfoldable pub find_config_file : Text
  unfolding documented_config_path
  find_config_file = elim documented_config_path [
    | err _ ↦ config_json
    | ok documented ↦
        if stat documented then documented else if stat config_json then config_json else documented
  ]

  -- `SAP_CONFIG_FILE` is the argument, empty if it is not set.
  unfoldable pub resolve_config_path : Text → Text × ConfigSource
  unfolding find_config_file
  resolve_config_path env =
      if is_empty env then (find_config_file, auto_discovered) else (env, sap_config_file)

  -- `SAP_CONFIG_FILE` wins; else the documented file wins if it is there; `config.json` of the
  -- working directory is used only if the documented file is not there, or has no known place.
  pub resolve_config_path_lem :
      (env documented : Text)
      → documented_config_path ≡ ok documented
      → resolve_config_path env ≡ (
          if not (is_empty env)
          then (env, sap_config_file)
          else if stat documented || not (stat (bytes "config.json"))
          then (documented, auto_discovered)
          else (bytes "config.json", auto_discovered))
  unfolding resolve_config_path find_config_file
  resolve_config_path_lem env documented h = ground (arith, h)

  -- `config.Load`: `parse` is the shared library's, `unmarshal_tools` reads the tool groups from the
  -- same text.
  unfoldable pub load :
      {C : Type 0}
      → (Text → Result F C)
      → (Text → Result F (List Text))
      → Text
      → Result (LoadError F) (C × List Text)
  load parse unmarshal_tools path = elim (read_file path) [
    | err e ↦ err (reading path e)
    | ok text ↦ elim (parse text) [
      | err e ↦ err (invalid e)
      | ok shared ↦ elim (unmarshal_tools text) [
        | err e ↦ err (parsing e)
        | ok tools ↦ ok (shared, tools)
      ]
    ]
  ]
