-- ===== src/Link.antt =====
-- The link of the application (src/core/sweetdawn.c, sections 1 to 3, and sweetdawn.h): what
-- `SweetDawn` keeps, the supervision of the link, and unsolicited messages. `SweetDawn` is passed
-- along with the world; `none` is out of fuel in a loop of the transport. The injected clock of the
-- tests and the system's are one, `os.clock`.
pub mod Invariant
use sweet_dawn.Base.{
  ℤ, ℕ, zero, suc, ◌+◌, ◌-◌, ◌*◌, ◌/◌, ◌%◌, Bool, true, false, not, ◌&&◌, ◌||◌, Option, none, some,
  ltb, leb, ◌==◌, if◌then◌else◌, length, drop, take, get_or,
}
use sweet_dawn.Os.{Os}
use sweet_dawn.State.{AmlState}
use sweet_dawn.Protocol.{Bytes, max_frame_size}
use sweet_dawn.Transport.{
  Code, ok, err_timeout, err_disconnected, err_io, AmlConnection, AmlConfig, aml_receive,
  aml_disconnect,
}

-- The constants `SWEETDAWN_*` of sweetdawn.h, and `AML_RESPONSE_TIMEOUT_MS`.
abbrev pub refresh_interval_ms : ℕ
refresh_interval_ms = 60000

abbrev pub refresh_retry_ms : ℕ
refresh_retry_ms = 5000

abbrev pub backoff_min_ms : ℕ
backoff_min_ms = 1000

abbrev pub backoff_max_ms : ℕ
backoff_max_ms = 30000

abbrev pub max_failures : ℕ
max_failures = 3

abbrev pub response_timeout_ms : ℕ
response_timeout_ms = 5000

-- `SweetDawn`, less the configuration file and the command tree, which nothing here changes.
-- The fields `clock_*` are those of app/handlers.c. `Ctx` is what the event handler keeps.
pub record SweetDawn (Ctx : Type 0) : Type 0 where
  pub device : Option AmlConfig
  pub connection : AmlConnection
  pub state : AmlState
  pub initialized : Bool
  pub connected : Bool
  pub authorization : ℕ
  pub last_refresh_ms : Option ℕ
  pub next_refresh_ms : ℕ
  pub next_connect_ms : ℕ
  pub connect_backoff_ms : ℕ
  pub consecutive_failures : ℕ
  pub connect_count : ℕ
  pub clock_set : Bool
  pub clock_offset_s : ℤ
  pub clock_synced_ms : ℕ
  pub on_event : Option (Ctx → ℕ → Bytes → Ctx)
  pub event_context : Ctx

-- The delay of `programmer_reconnexion` after the delay `backoff`.
unfoldable pub next_backoff : ℕ → ℕ
next_backoff backoff =
    if backoff == 0
    then backoff_min_ms
    else if leb (backoff_max_ms / 2) backoff
    then backoff_max_ms
    else backoff * 2

-- `est_evenement`
unfoldable pub est_evenement : ℕ → Bool
est_evenement code =
    code == 0xC6
    || code == 0xC7
    || code == 0xCA
    || code == 0xEB
    || code == 0xEC
    || code == 0xED
    || code == 0xEE

-- The test of `transmettre_evenement`.
unfoldable pub event_frame : Bytes → Bool
unfolding est_evenement
event_frame frame =
    not (ltb (length frame) 12) && get_or frame 2 0 == 0x0C && est_evenement (get_or frame 7 0)

-- The data of a frame: eight bytes before them, four behind.
abbrev pub frame_data : Bytes → Bytes
frame_data frame = take (length frame - 12) (drop 8 frame)

-- Whether a frame is the response to a request.
unfoldable pub is_response : ℕ → Bytes → Bool
is_response expected frame =
    ltb 7 (length frame) && get_or frame 2 0 == 0x0C && get_or frame 7 0 == expected % 256

module _ {Ctx : Type 0} where
  -- The call of the handler in `transmettre_evenement`.
  abbrev pub deliver : SweetDawn Ctx → Bytes → SweetDawn Ctx
  deliver app frame = elim app.on_event [
    | none ↦ app
    | some h ↦ record app {
      event_context = h app.event_context (get_or frame 7 0) (frame_data frame);
    }
  ]

  -- `transmettre_evenement`: the application, changed only by an unsolicited message.
  unfoldable pub transmettre_evenement : SweetDawn Ctx → Bytes → SweetDawn Ctx
  unfolding event_frame
  transmettre_evenement app frame = if event_frame frame then deliver app frame else app

module _ (os : Os) {Ctx : Type 0} where
  open os use {World}

  -- `programmer_reconnexion`
  unfoldable pub programmer_reconnexion : SweetDawn Ctx → World → SweetDawn Ctx × World
  unfolding next_backoff
  programmer_reconnexion app w =
      let backoff = next_backoff app.connect_backoff_ms in
      let (now, w') = os.clock w in
      (record app { connect_backoff_ms = backoff; next_connect_ms = now + backoff }, w')

  -- `abandonner_liaison`
  unfoldable pub abandonner_liaison : SweetDawn Ctx → World → SweetDawn Ctx × World
  unfolding programmer_reconnexion
  abandonner_liaison app w =
      let (c, w') = aml_disconnect os app.connection w in
      programmer_reconnexion
        (record app { connection = c; connected = false; consecutive_failures = 0 }) w'

  -- `traiter_echec_liaison`
  unfoldable pub traiter_echec_liaison : SweetDawn Ctx → Code → World → SweetDawn Ctx × World
  unfolding abandonner_liaison
  traiter_echec_liaison app err_disconnected w = abandonner_liaison app w
  traiter_echec_liaison app err_io w = abandonner_liaison app w
  traiter_echec_liaison app _ w =
      let app' = record app { consecutive_failures = app.consecutive_failures + 1 } in
      if leb max_failures app'.consecutive_failures then abandonner_liaison app' w else (app', w)

  -- The body of the loop of `lire_evenements`, behind aml_receive().
  lire_step :
      (SweetDawn Ctx → World → Option (SweetDawn Ctx × World))
      → SweetDawn Ctx
      → Option (Code × Bytes × AmlConnection × World)
      → Option (SweetDawn Ctx × World)
  unfolding traiter_echec_liaison transmettre_evenement
  lire_step loop app none = none
  lire_step loop app (some (ok, frame, c, w)) =
      loop (transmettre_evenement (record app { connection = c }) frame) w
  lire_step loop app (some (err_timeout, frame, c, w)) = some (record app { connection = c }, w)
  lire_step loop app (some (code, frame, c, w)) =
      some (traiter_echec_liaison (record app { connection = c }) code w)

  -- The loop of `lire_evenements`, `rounds` turns at most.
  lire_loop : ℕ → ℕ → SweetDawn Ctx → World → Option (SweetDawn Ctx × World)
  unfolding lire_step
  lire_loop zero fuel app w = some (app, w)
  lire_loop (suc rounds) fuel app w = elim app.connected [
    | false ↦ some (app, w)
    | true ↦
        lire_step (lire_loop rounds fuel) app
          (aml_receive os fuel app.connection max_frame_size (some 0) w)
  ]

  -- `lire_evenements`
  unfoldable pub lire_evenements : ℕ → SweetDawn Ctx → World → Option (SweetDawn Ctx × World)
  unfolding lire_loop
  lire_evenements fuel app w = lire_loop 16 fuel app w
