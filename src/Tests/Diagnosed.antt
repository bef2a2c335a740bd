-- ===== src/Tests/Diagnosed.antt =====
-- The diagnosis program on the system of World.
use sweet_dawn.Base.{◌≡◌, true, none, some, [], ◌∷◌, refl}
use sweet_dawn.Protocol.{parser_next, parser_feed, build_request, request_frame, checksum_of}
use sweet_dawn.Transport.{AmlConfig, aml_receive, aml_send, aml_disconnect}
use sweet_dawn.Connect.{aml_connect}
use sweet_dawn.Config.{loaded, config_select}
use sweet_dawn.Cli.{diagnostic}
use sweet_dawn.Cli.Read.{Finishes, diagnostic-Finishes}
use sweet_dawn.Tests.World.{Net, net}
use sweet_dawn.Tests.{status_frame, settings_frame, asked, quiet_net}

abbrev device : AmlConfig
device = record { name = []; aml_mac = 1 ∷ []; aml_chn = 6; blt_mac = 2 ∷ [] }

abbrev answering : Net
answering = record quiet_net { replies = status_frame ∷ settings_frame ∷ [] }

diagnostic-Finishes_example :
    Finishes net 20
      (loaded (device ∷ []))
      []
      answering
      (diagnostic net 20 (loaded (device ∷ [])) [] answering)
diagnostic-Finishes_example = diagnostic-Finishes net 20 (loaded (device ∷ [])) [] answering

diagnostic_runs :
    diagnostic net 20 (loaded (device ∷ [])) [] answering
    ≡ some (
      0,
      record { known = true; display = 1; date = 2; time = 3; feedback = 4; fade = 5 },
      record { socket_fd = none; parser = [] },
      record quiet_net { out = asked },
    )
unfolding diagnostic config_select aml_connect aml_receive aml_send aml_disconnect parser_next
    build_request parser_feed request_frame checksum_of
diagnostic_runs = refl
