-- ===== src/Cli.antt =====
-- The diagnosis program (src/app/cli.c): it connects, asks the status and the settings, and disconnects. What it
-- prints is left out; `none` is out of fuel in a loop of the transport.
pub mod Read
use sweet_dawn.Base.{
  ℕ, ◌+◌, Bool, true, false, not, ◌||◌, Option, none, some, List, [], ◌∷◌, String, ltb, ◌==◌,
  if◌then◌else◌, length, get_or,
}
use sweet_dawn.Os.{Os}
use sweet_dawn.State.{AmlState, state_init, state_update_settings}
use sweet_dawn.Protocol.{Bytes, max_frame_size, build_request}
use sweet_dawn.Transport.{Code, ok, AmlConfig, AmlConnection, aml_receive, aml_send, aml_disconnect}
use sweet_dawn.Connect.{aml_connect}
use sweet_dawn.Json.{JsonLib}
use sweet_dawn.Config.{Result, failed, loaded, config_load, config_select}

-- `RESPONSE_TIMEOUT_MS`
abbrev pub response_timeout_ms : ℕ
response_timeout_ms = 5000

-- The check of `demander_statut`, and that of `demander_parametres`.
unfoldable pub is_statut : Bytes → Bool
is_statut response = not (ltb (length response) 9 || not (get_or response 7 0 == 0xF0))

unfoldable pub are_parametres : Bytes → Bool
are_parametres response = not (ltb (length response) 14 || not (get_or response 7 0 == 0xE2))

module _ (os : Os) where
  open os use {World}

  -- `envoyer_requete` behind aml_receive().
  unfoldable pub recue :
      Option (Code × Bytes × AmlConnection × World) → Option (Option Bytes × AmlConnection × World)
  recue none = none
  recue (some (ok, response, c, w)) = some (some response, c, w)
  recue (some (code, response, c, w)) = some (none, c, w)

  -- `envoyer_requete` behind aml_send().
  unfoldable pub envoyee :
      ℕ → AmlConnection → Option (Code × World) → Option (Option Bytes × AmlConnection × World)
  unfolding recue
  envoyee fuel c none = none
  envoyee fuel c (some (ok, w)) =
      recue (aml_receive os fuel c max_frame_size (some response_timeout_ms) w)
  envoyee fuel c (some (code, w)) = some (none, c, w)

  -- `envoyer_requete`; the inner none is -1.
  unfoldable pub demander :
      ℕ → AmlConnection → ℕ → Bytes → World → Option (Option Bytes × AmlConnection × World)
  unfolding envoyee
  demander fuel c request_code arguments w =
      elim (build_request request_code arguments max_frame_size) [
        | none ↦ some (none, c, w)
        | some request ↦ envoyee fuel c (aml_send os fuel c request w)
      ]

  -- The end of `main`: the code, the state, and the connection, closed.
  unfoldable pub termine :
      ℕ → AmlState → AmlConnection → World → Option (ℕ × AmlState × AmlConnection × World)
  termine code state c w = let (c', w') = aml_disconnect os c w in some (code, state, c', w')

  -- `demander_parametres`, and the end.
  unfoldable pub parametres_recus :
      Option (Option Bytes × AmlConnection × World) → Option (ℕ × AmlState × AmlConnection × World)
  unfolding termine are_parametres state_update_settings state_init
  parametres_recus none = none
  parametres_recus (some (none, c, w)) = termine 1 state_init c w
  parametres_recus (some (some r, c, w)) =
      if not (are_parametres r)
      then termine 1 state_init c w
      else termine 0
          (state_update_settings state_init (get_or r 8 0) (get_or r 9 0) (get_or r 10 0)
            (get_or r 11 0) (get_or r 12 0))
          c w

  -- `demander_statut`, and what follows.
  unfoldable pub statut_recu :
      ℕ
      → Option (Option Bytes × AmlConnection × World)
      → Option (ℕ × AmlState × AmlConnection × World)
  unfolding termine is_statut parametres_recus demander
  statut_recu fuel none = none
  statut_recu fuel (some (none, c, w)) = termine 1 state_init c w
  statut_recu fuel (some (some r, c, w)) =
      if not (is_statut r)
      then termine 1 state_init c w
      else parametres_recus (demander fuel c 0x12 [] w)

  -- Behind aml_connect().
  unfoldable pub connecte :
      ℕ → Option (Code × AmlConnection × World) → Option (ℕ × AmlState × AmlConnection × World)
  unfolding termine statut_recu demander
  connecte fuel none = none
  connecte fuel (some (ok, c, w)) = statut_recu fuel (demander fuel c 0x00 (0x16 ∷ []) w)
  connecte fuel (some (code, c, w)) = termine 1 state_init c w

  -- `main` once the configuration is loaded, with the name of the device or an empty one.
  unfoldable pub diagnostic :
      ℕ → Result (List AmlConfig) → Bytes → World → Option (ℕ × AmlState × AmlConnection × World)
  unfolding connecte
  diagnostic fuel (failed e) name w =
      some (1, state_init, record { socket_fd = none; parser = [] }, w)
  diagnostic fuel (loaded devices) name w = elim (config_select devices name) [
    | none ↦ some (1, state_init, record { socket_fd = none; parser = [] }, w)
    | some device ↦ connecte fuel (aml_connect os fuel device w)
  ]
