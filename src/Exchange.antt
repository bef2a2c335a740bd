-- ===== src/Exchange.antt =====
-- One request to the AML005 and its response (`envoyer_requete` of src/core/sweetdawn.c, which
-- `sweetdawn_request` calls with its arguments in another order).
pub mod Response
use sweet_dawn.Base.{
  ℕ, zero, suc, ◌+◌, ◌-◌, true, false, not, Option, none, some, [], leb, ◌==◌, if◌then◌else◌,
}
use sweet_dawn.Os.{Os}
use sweet_dawn.Protocol.{Bytes, max_frame_size, build_request}
use sweet_dawn.Transport.{
  Code, ok, err_generic, err_timeout, err_disconnected, aml_receive, aml_send, AmlConnection,
}
use sweet_dawn.Link.{
  SweetDawn, response_timeout_ms, is_response, transmettre_evenement, lire_evenements,
  traiter_echec_liaison,
}

module _ (os : Os) {Ctx : Type 0} where
  open os use {World}

  -- The body of the loop that waits for the response, behind aml_receive().
  wait_step :
      ℕ
      → (SweetDawn Ctx → World → Option (Code × Bytes × SweetDawn Ctx × World))
      → SweetDawn Ctx
      → Option (Code × Bytes × AmlConnection × World)
      → Option (Code × Bytes × SweetDawn Ctx × World)
  unfolding transmettre_evenement is_response
  wait_step expected loop app none = none
  wait_step expected loop app (some (ok, frame, c, w)) =
      if is_response expected frame
      then some (ok, frame, record app { connection = c; consecutive_failures = 0 }, w)
      else loop (transmettre_evenement (record app { connection = c }) frame) w
  wait_step expected loop app (some (code, frame, c, w)) =
      some (code, [], record app { connection = c }, w)

  -- The loop of `envoyer_requete` that waits for the response to `expected` until `deadline`.
  wait_response : ℕ → ℕ → ℕ → SweetDawn Ctx → World → Option (Code × Bytes × SweetDawn Ctx × World)
  unfolding wait_step
  wait_response zero expected deadline app w = none
  wait_response (suc fuel) expected deadline app w =
      let (now, w') = os.clock w in
      elim (leb deadline now) [
        | true ↦ some (err_timeout, [], app, w')
        | false ↦
            wait_step expected (wait_response fuel expected deadline) app
              (aml_receive os fuel app.connection max_frame_size (some (deadline - now)) w')
      ]

  -- The end of `envoyer_requete`: a failure is told to the supervision.
  conclude :
      Option (Code × Bytes × SweetDawn Ctx × World) → Option (Code × Bytes × SweetDawn Ctx × World)
  unfolding traiter_echec_liaison
  conclude none = none
  conclude (some (ok, frame, app, w)) = some (ok, frame, app, w)
  conclude (some (code, frame, app, w)) =
      let (app', w') = traiter_echec_liaison os app code w in some (code, [], app', w')

  -- `envoyer_requete` behind aml_send(); `expected` is none for `SWEETDAWN_NO_RESPONSE`.
  sent_step :
      ℕ
      → Option ℕ
      → ℕ
      → SweetDawn Ctx
      → Option (Code × World)
      → Option (Code × Bytes × SweetDawn Ctx × World)
  unfolding wait_response conclude
  sent_step fuel expected timeout_ms app none = none
  sent_step fuel none timeout_ms app (some (ok, w)) = some (ok, [], app, w)
  sent_step fuel (some e) timeout_ms app (some (ok, w)) =
      let (now, w') = os.clock w in conclude (wait_response fuel e (now + timeout_ms) app w')
  sent_step fuel expected timeout_ms app (some (code, w)) = conclude (some (code, [], app, w))

  -- `envoyer_requete` once the request is built, behind lire_evenements().
  exchange :
      ℕ
      → Bytes
      → Option ℕ
      → ℕ
      → Option (SweetDawn Ctx × World)
      → Option (Code × Bytes × SweetDawn Ctx × World)
  unfolding sent_step
  exchange fuel request expected timeout_ms none = none
  exchange fuel request expected timeout_ms (some (app, w)) =
      if not app.connected
      then some (err_disconnected, [], app, w)
      else sent_step fuel expected timeout_ms app (aml_send os fuel app.connection request w)

  -- `envoyer_requete`, at buffers of `AML_PROTOCOL_MAX_FRAME_SIZE` bytes that are not null.
  unfoldable pub envoyer_requete :
      ℕ
      → SweetDawn Ctx
      → ℕ
      → Option ℕ
      → ℕ
      → Bytes
      → World
      → Option (Code × Bytes × SweetDawn Ctx × World)
  unfolding lire_evenements exchange
  envoyer_requete fuel app request_code expected timeout_ms arguments w =
      if not app.initialized
      then some (err_generic, [], app, w)
      else if not app.connected
      then some (err_disconnected, [], app, w)
      else elim (build_request request_code arguments max_frame_size) [
        | none ↦ some (err_generic, [], app, w)
        | some request ↦
            exchange fuel request expected
              (if timeout_ms == 0 then response_timeout_ms else timeout_ms)
              (lire_evenements os fuel app w)
      ]
