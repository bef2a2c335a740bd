-- ===== src/Tests/Links.antt =====
-- The link: runs and theorems of Transport, Connect and Link on the system of World.
use sweet_dawn.Base.{ℕ, ◌≡◌, some, [], ◌∷◌, ◌++◌, refl, arith, take}
use sweet_dawn.Protocol.{Bytes, parser_next, parser_feed}
use sweet_dawn.Transport.{ok, AmlConfig, AmlConnection, aml_receive, aml_send}
use sweet_dawn.Transport.Receive.{IsSound, receive-IsSound}
use sweet_dawn.Transport.Send.{send_complete}
use sweet_dawn.Connect.{aml_connect}
use sweet_dawn.Transport.{Code, ok}
use sweet_dawn.Transport.Ends.{receive_ends}
use sweet_dawn.Tests.World.{Net, net, net_sends, net_finite}
use sweet_dawn.Tests.{status_frame, built, open_link, waiting_net, quiet_net}

received_runs :
    aml_receive net 5 open_link 259 (some 100) waiting_net
    ≡ some (ok, status_frame, open_link, quiet_net)
unfolding aml_receive parser_next parser_feed
received_runs = refl

receive-IsSound_example : IsSound (some 3) ok status_frame open_link
receive-IsSound_example =
    receive-IsSound net 5 open_link 259 (some 100) waiting_net ok status_frame open_link quiet_net
      (omega arith) (omega arith) received_runs

sent_runs : aml_send net 5 open_link built quiet_net ≡ some (ok, record quiet_net { out = built })
unfolding aml_send
sent_runs = refl

send_complete_example : (n : ℕ) × (built ≡ [] ++ take n built) × (ok ≡ ok → take n built ≡ built)
send_complete_example =
    send_complete net (λ w. w.out) net_sends (λ fd b w e h. ground arith) 5 3 open_link built
      quiet_net (record quiet_net { out = built }) ok refl sent_runs

abbrev device : AmlConfig
device = record { name = []; aml_mac = 1 ∷ []; aml_chn = 6; blt_mac = 2 ∷ [] }

connect_runs : aml_connect net 3 device quiet_net ≡ some (ok, open_link, quiet_net)
unfolding aml_connect
connect_runs = refl

receive_ends_example :
    (x : Code × Bytes × AmlConnection × Net) × (aml_receive net 103 open_link 259
        (some 100)
        waiting_net
      ≡ some x)
receive_ends_example =
    receive_ends net net_finite 103 open_link 259 100 waiting_net (omega arith) (omega arith)
      (omega arith)
