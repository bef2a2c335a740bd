-- ===== src/Tests/Initial.antt =====
-- The configuration of one device, and the program that begins with it.
use sweet_dawn.Base.{ℕ, ◌≤◌, true, some, [], ◌∷◌, refl}
use sweet_dawn.Transport.{AmlConfig}
use sweet_dawn.Command.Registry.{registry_init}
use sweet_dawn.Command.Aml.{aml_commands_init}
use sweet_dawn.Config.{config_load, config_select}
use sweet_dawn.Config.Loaded.{AreDevices, load-AreDevices}
use sweet_dawn.Init.{Started, zeroed, sweetdawn_init}
use sweet_dawn.Init.Ready.{IsReady, init-IsReady}
use sweet_dawn.Tests.Served.{documents, bedroom, address}
use sweet_dawn.Tests.Commands.{tree}

abbrev device : AmlConfig
device = record { name = bedroom; aml_mac = address; aml_chn = 6; blt_mac = address }

load-AreDevices_example : AreDevices [] (device ∷ []) × (1 ≤ 1) × (1 ≤ 32)
unfolding config_load
load-AreDevices_example = load-AreDevices documents "amls.json" (device ∷ []) refl

abbrev ready : Started ℕ
ready = record {
  app = record (zeroed 0) { device = some device; initialized = true };
  devices = device ∷ [];
  commands = tree;
}

init-IsReady_example : IsReady bedroom ready
unfolding sweetdawn_init aml_commands_init registry_init tree config_load config_select
init-IsReady_example = init-IsReady documents "amls.json" bedroom 0 ready refl
