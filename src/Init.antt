-- ===== src/Init.antt =====
-- The beginning and the end of the program's state (sweetdawn_init and sweetdawn_cleanup of src/core/sweetdawn.c).
pub mod Ready
use sweet_dawn.Base.{
  pos, ℕ, Bool, true, false, Option, none, some, List, [], ◌∷◌, String, same, if◌then◌else◌,
}
use sweet_dawn.Protocol.{Bytes}
use sweet_dawn.State.{state_init}
use sweet_dawn.Os.{Os}
use sweet_dawn.Transport.{AmlConfig, AmlConnection, aml_disconnect}
use sweet_dawn.Link.{SweetDawn}
use sweet_dawn.Json.{JsonLib}
use sweet_dawn.Command.{Command}
use sweet_dawn.Command.Aml.{aml_commands_init}
use sweet_dawn.Config.{ConfigError, Result, failed, loaded, config_load, config_select}

-- `SweetDawn` with its configuration and its commands.
pub record Started (Ctx : Type 0) : Type 0 where
  pub app : SweetDawn Ctx
  pub devices : List AmlConfig
  pub commands : List Command

pub data Outcome (Ctx : Type 0) : Type 0 where
  bad_arguments no_commands : Outcome Ctx
  bad_config : ConfigError → Outcome Ctx
  unknown_device : Bytes → Outcome Ctx
  started : Started Ctx → Outcome Ctx

-- A structure of zeros, less the -1 of the descriptor and of the date of the last reading.
abbrev pub zeroed : {Ctx : Type 0} → Ctx → SweetDawn Ctx
zeroed ctx = record {
  device = none;
  connection = record { socket_fd = none; parser = [] };
  state = state_init;
  initialized = false;
  connected = false;
  authorization = 0;
  last_refresh_ms = none;
  next_refresh_ms = 0;
  next_connect_ms = 0;
  connect_backoff_ms = 0;
  consecutive_failures = 0;
  connect_count = 0;
  clock_set = false;
  clock_offset_s = pos 0;
  clock_synced_ms = 0;
  on_event = none;
  event_context = ctx;
}

module _ {Ctx : Type 0} where
  -- `sweetdawn_init` once the device is selected.
  unfoldable pub init_commands :
      List AmlConfig → AmlConfig → Ctx → Option (Unit {0} × List Command) → Outcome Ctx
  init_commands devices device ctx none = no_commands
  init_commands devices device ctx (some (u, commands)) = started (record {
    app = record (zeroed ctx) { device = some device; initialized = true };
    devices = devices;
    commands = commands;
  })

  -- `sweetdawn_init` once the configuration is loaded.
  unfoldable pub init_device : Bytes → Ctx → Result (List AmlConfig) → Outcome Ctx
  unfolding init_commands
  init_device name ctx (failed e) = bad_config e
  init_device name ctx (loaded devices) = elim (config_select devices name) [
    | none ↦ unknown_device name
    | some device ↦ init_commands devices device ctx aml_commands_init
  ]

  -- `sweetdawn_init`; a NULL name of a device is an empty one.
  unfoldable pub sweetdawn_init : JsonLib → String → Bytes → Ctx → Outcome Ctx
  unfolding init_device
  sweetdawn_init json path name ctx =
      if same path "" then bad_arguments else init_device name ctx (config_load json path)

  -- `sweetdawn_cleanup`
  unfoldable pub sweetdawn_cleanup :
      (os : Os) → SweetDawn Ctx → Ctx → os.World → SweetDawn Ctx × os.World
  sweetdawn_cleanup os app null w =
      let (c, w') = aml_disconnect os app.connection w in (zeroed null, w')
