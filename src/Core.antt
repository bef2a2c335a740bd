-- ===== src/Core.antt =====
-- The life of the link (src/core/sweetdawn.c, sections 4 and 5): reading the authorization and
-- the settings, connecting, and the periodic task.
pub mod Refresh
pub mod Stored
pub mod Tick
use sweet_dawn.Base.{
  ◌-◌, ℕ, ◌+◌, ◌%◌, ◌^◌, true, not, ◌&&◌, ◌||◌, Option, none, some, [], ◌∷◌, ltb, leb,
  if◌then◌else◌, length, get_or,
}
use sweet_dawn.Os.{Os}
use sweet_dawn.State.{state_update_settings}
use sweet_dawn.Protocol.{Bytes}
use sweet_dawn.Transport.{AmlConnection, AmlConfig, Code, ok, err_generic, err_protocol}
use sweet_dawn.Connect.{aml_connect}
use sweet_dawn.Link.{
  SweetDawn, refresh_interval_ms, refresh_retry_ms, lire_evenements, programmer_reconnexion,
}
use sweet_dawn.Exchange.{envoyer_requete}

module _ (os : Os) {Ctx : Type 0} where
  open os use {World}

  -- `demander_statut` behind its request.
  pub statut_of :
      Option (Code × Bytes × SweetDawn Ctx × World) → Option (Code × ℕ × SweetDawn Ctx × World)
  statut_of none = none
  statut_of (some (ok, response, app, w)) =
      if ltb (length response) 9
      then some (err_protocol, 0, app, w)
      else some (ok, get_or response 8 0, app, w)
  statut_of (some (code, response, app, w)) = some (code, 0, app, w)

  -- `demander_statut`: the authorization when the code is 0.
  unfoldable pub demander_statut :
      ℕ → SweetDawn Ctx → World → Option (Code × ℕ × SweetDawn Ctx × World)
  unfolding statut_of
  demander_statut fuel app w =
      statut_of (envoyer_requete os fuel app 0x00 (some 0xF0) 0 (0x16 ∷ []) w)

  -- `demander_parametres` behind its request.
  parametres_of :
      Option (Code × Bytes × SweetDawn Ctx × World) → Option (Code × SweetDawn Ctx × World)
  unfolding state_update_settings
  parametres_of none = none
  parametres_of (some (ok, response, app, w)) =
      if ltb (length response) 14
      then some (err_protocol, app, w)
      else some (
        ok,
        record app {
          state =
              state_update_settings app.state (get_or response 8 0) (get_or response 9 0)
                (get_or response 10 0) (get_or response 11 0) (get_or response 12 0);
        },
        w,
      )
  parametres_of (some (code, response, app, w)) = some (code, app, w)

  -- `demander_parametres`
  unfoldable pub demander_parametres :
      ℕ → SweetDawn Ctx → World → Option (Code × SweetDawn Ctx × World)
  unfolding parametres_of
  demander_parametres fuel app w =
      parametres_of (envoyer_requete os fuel app 0x12 (some 0xE2) 0 [] w)

  -- The end of `sweetdawn_refresh`, with the code of its two requests.
  refreshed : Code → SweetDawn Ctx → World → SweetDawn Ctx × World
  refreshed ok app w =
      let (now, w') = os.clock w in
      (
        record app {
          last_refresh_ms = some now;
          next_refresh_ms = now + refresh_interval_ms;
          connect_backoff_ms = 0;
        },
        w',
      )
  refreshed code app w =
      let (now, w') = os.clock w in (record app { next_refresh_ms = now + refresh_retry_ms }, w')

  -- `sweetdawn_refresh` behind demander_parametres().
  parametres_read : Option (Code × SweetDawn Ctx × World) → Option (Code × SweetDawn Ctx × World)
  unfolding refreshed
  parametres_read none = none
  parametres_read (some (code, app, w)) =
      let (app', w') = refreshed code app w in some (code, app', w')

  -- `sweetdawn_refresh` behind demander_statut().
  statut_read :
      ℕ → Option (Code × ℕ × SweetDawn Ctx × World) → Option (Code × SweetDawn Ctx × World)
  unfolding demander_parametres parametres_read
  statut_read fuel none = none
  statut_read fuel (some (ok, authorization, app, w)) =
      parametres_read (demander_parametres fuel (record app { authorization = authorization }) w)
  statut_read fuel (some (code, authorization, app, w)) =
      let (app', w') = refreshed code app w in some (code, app', w')

  -- `sweetdawn_refresh`
  unfoldable pub sweetdawn_refresh :
      ℕ → SweetDawn Ctx → World → Option (Code × SweetDawn Ctx × World)
  unfolding demander_statut statut_read
  sweetdawn_refresh fuel app w =
      if not app.initialized || not app.connected
      then some (err_generic, app, w)
      else statut_read fuel (demander_statut fuel app w)

  -- `sweetdawn_connect` behind aml_connect().
  connected_step :
      SweetDawn Ctx → Option (Code × AmlConnection × World) → Option (Code × SweetDawn Ctx × World)
  connected_step app none = none
  connected_step app (some (ok, c, w)) = some (
    ok,
    record app { connection = c; connected = true; consecutive_failures = 0; next_refresh_ms = 0 },
    w,
  )
  connected_step app (some (code, c, w)) = some (code, record app { connection = c }, w)

  -- `sweetdawn_connect`, with `app->device`.
  connect_device :
      ℕ → SweetDawn Ctx → World → Option AmlConfig → Option (Code × SweetDawn Ctx × World)
  unfolding connected_step
  connect_device fuel app w none = some (err_generic, app, w)
  connect_device fuel app w (some device) =
      if not app.initialized
      then some (err_generic, app, w)
      else if app.connected
      then some (ok, app, w)
      else connected_step app (aml_connect os fuel device w)

  -- `sweetdawn_connect`
  unfoldable pub sweetdawn_connect :
      ℕ → SweetDawn Ctx → World → Option (Code × SweetDawn Ctx × World)
  unfolding connect_device
  sweetdawn_connect fuel app w = connect_device fuel app w app.device

  -- `sweetdawn_tick` behind sweetdawn_refresh(), whose code it does not read.
  tick_end : Option (Code × SweetDawn Ctx × World) → Option (SweetDawn Ctx × World)
  tick_end none = none
  tick_end (some (code, app, w)) = some (app, w)

  -- `sweetdawn_tick` behind sweetdawn_connect().
  tick_connected : ℕ → Option (Code × SweetDawn Ctx × World) → Option (SweetDawn Ctx × World)
  unfolding sweetdawn_refresh programmer_reconnexion tick_end
  tick_connected fuel none = none
  tick_connected fuel (some (ok, app, w)) =
      tick_end
        (sweetdawn_refresh fuel (record app { connect_count = (app.connect_count + 1) % 2 ^ 32 }) w)
  tick_connected fuel (some (code, app, w)) = some (programmer_reconnexion os app w)

  -- `sweetdawn_tick` behind lire_evenements(); `now` was read before it.
  tick_read : ℕ → ℕ → Option (SweetDawn Ctx × World) → Option (SweetDawn Ctx × World)
  unfolding sweetdawn_refresh tick_end
  tick_read fuel now none = none
  tick_read fuel now (some (app, w)) =
      if app.connected && leb app.next_refresh_ms now
      then tick_end (sweetdawn_refresh fuel app w)
      else some (app, w)

  -- `sweetdawn_tick`
  unfoldable pub sweetdawn_tick : ℕ → SweetDawn Ctx → World → Option (SweetDawn Ctx × World)
  unfolding sweetdawn_connect tick_connected lire_evenements tick_read
  sweetdawn_tick fuel app w =
      if not app.initialized
      then some (app, w)
      else let (now, w') = os.clock w in
        if app.connected
        then tick_read fuel now (lire_evenements os fuel app w')
        else if ltb now app.next_connect_ms
        then some (app, w')
        else tick_connected fuel (sweetdawn_connect fuel app w')

  -- `sweetdawn_state_age_ms`; none is -1.
  unfoldable pub sweetdawn_state_age_ms : SweetDawn Ctx → World → Option ℕ × World
  sweetdawn_state_age_ms app w = elim app.last_refresh_ms [
    | none ↦ (none, w)
    | some last ↦
        if not app.initialized
        then (none, w)
        else let (now, w') = os.clock w in (some (now - last), w')
  ]
