-- ===== src/Connect/Opened.antt =====
-- What `aml_connect` (src/aml/transport.c) leaves: an open socket or none, and an empty parser.
use sweet_dawn.Base.{ℕ, some, none, ◌≡◌, ◌≢◌, [], arith}
use sweet_dawn.Os.{Os}
use sweet_dawn.Transport.{Code, ok, AmlConnection, AmlConfig}
use sweet_dawn.Connect.{connect_bound, aml_connect}

pub record IsOpened (code : Code) (c : AmlConnection) : Type 0 where
  pub open_up : code ≡ ok → c.socket_fd ≢ none
  pub closed_down : code ≢ ok → c.socket_fd ≡ none
  pub empty : c.parser ≡ []

module _ (os : Os) where
  connect_bound-IsOpened :
      (fuel : ℕ) (config : AmlConfig) (fd : ℕ) (w : os.World) (code : Code) (c : AmlConnection)
      (w' : os.World)
      → connect_bound os fuel config fd w ≡ some (code, c, w')
      → IsOpened code c
  unfolding connect_bound
  connect_bound-IsOpened fuel config fd w code c w' h = ground arith

  -- A return of aml_connect leaves an open socket with the code 0 and none with any other code,
  -- and an empty parser.
  pub connect-IsOpened :
      (fuel : ℕ) (config : AmlConfig) (w : os.World) (code : Code) (c : AmlConnection)
      (w' : os.World)
      → aml_connect os fuel config w ≡ some (code, c, w')
      → IsOpened code c
  unfolding aml_connect
  connect-IsOpened fuel config w code c w' h = ground arith
