-- ===== src/Exchange/Response.antt =====
-- What `envoyer_requete` (src/core/sweetdawn.c) returns and keeps, whatever the system answers.
use sweet_dawn.Base.{
  ℕ, zero, suc, ◌+◌, ◌-◌, true, Option, none, some, [], ◌≡◌, ◌≢◌, inl, inr, refl, arith, get_or,
  Bool-cases, some-eq, if_intro, subst, leb, if◌then◌else◌, ◌==◌, not, ◌%◌,
}
use sweet_dawn.Os.{Os}
use sweet_dawn.State.{AmlState}
use sweet_dawn.Protocol.{Bytes, max_frame_size, build_request}
use sweet_dawn.Protocol.Extract.{IsFrame}
use sweet_dawn.Transport.{
  Code, ok, err_generic, err_timeout, err_disconnected, AmlConnection, aml_receive, aml_send,
}
use sweet_dawn.Transport.Receive.{IsSound, Returns, receive-Returns}
use sweet_dawn.Link.{
  SweetDawn, is_response, transmettre_evenement, lire_evenements, traiter_echec_liaison,
  response_timeout_ms,
}
use sweet_dawn.Link.Invariant.{
  IsLinked, transmettre-IsLinked, traiter-IsLinked, received-IsLinked, Keeps, lire-Keeps,
}
use sweet_dawn.Exchange.{wait_step, wait_response, conclude, sent_step, exchange, envoyer_requete}

-- A frame that answers a request whose response code is `expected`.
pub record IsAnswer (expected : ℕ) (f : Bytes) : Type 0 where
  pub frame : IsFrame f
  pub response : get_or f 2 0 ≡ 0x0C
  pub code : get_or f 7 0 ≡ expected % 256

-- What a return of `envoyer_requete` promises: the invariant, and with the code 0 and an expected
-- response that very response, after which no failure is counted.
pub record IsReply {Ctx : Type 0} (state : AmlState) (expected : Option ℕ) (code : Code) (f : Bytes)
    (app : SweetDawn Ctx) : Type 0 where
  pub linked : IsLinked state app
  pub answer :
      (e : ℕ) → expected ≡ some e → code ≡ ok → IsAnswer e f × (app.consecutive_failures ≡ 0)

is_response-IsAnswer : (e : ℕ) (f : Bytes) → IsFrame f → is_response e f ≡ true → IsAnswer e f
unfolding is_response
is_response-IsAnswer e f v h = ground arith

abbrev pub Replies :
    {Ctx W : Type 0} → AmlState → Option ℕ → Option (Code × Bytes × SweetDawn Ctx × W) → Type 0
Replies state expected none = Unit
Replies state expected (some (code, f, app, w)) = IsReply state expected code f app

module _ (os : Os) {Ctx : Type 0} (state : AmlState) where
  open os use {World}

  -- A failure promises the invariant alone.
  failed-IsReply :
      (expected : Option ℕ) (code : Code) (f : Bytes) (app : SweetDawn Ctx)
      → IsLinked state app
      → code ≢ ok
      → IsReply state expected code f app
  failed-IsReply expected code f app v h = record { linked = v; answer = λ e x y. absurd (h y) }

  answered :
      (e : ℕ) (f : Bytes) (c : AmlConnection) (app : SweetDawn Ctx)
      → IsLinked state app
      → IsSound app.connection.socket_fd ok f c
      → is_response e f ≡ true
      → IsReply state (some e) ok f (record app { connection = c; consecutive_failures = 0 })
  answered e f c app v s h = record {
    linked = ground (arith, received-IsLinked os app ok f c v s);
    answer = λ e' x y. (
      subst (λ k. IsAnswer k f) (some-eq e e' x) (is_response-IsAnswer e f (s.frame refl) h),
      refl,
    );
  }

  wait_step-Replies :
      (e : ℕ) (loop : SweetDawn Ctx → World → Option (Code × Bytes × SweetDawn Ctx × World))
      (app : SweetDawn Ctx) (r : Option (Code × Bytes × AmlConnection × World))
      → IsLinked state app
      → Returns app.connection.socket_fd r
      → ((a : SweetDawn Ctx) (w : World) → IsLinked state a → Replies state (some e) (loop a w))
      → Replies state (some e) (wait_step os e loop app r)
  unfolding wait_step
  wait_step-Replies e loop app none v s k = tt
  wait_step-Replies e loop app (some (ok, f, c, w)) v s k =
      if_intro (Replies state (some e)) (is_response e f) (answered e f c app v s) (λ h.
        k (transmettre_evenement (record app { connection = c }) f) w (
          transmettre-IsLinked os (record app { connection = c }) f
            (received-IsLinked os app ok f c v s)))
  wait_step-Replies e loop app (some (code, f, c, w)) v s k =
      failed-IsReply (some e) code [] (record app { connection = c })
        (received-IsLinked os app code f c v s) (λ h. cc)

  wait_response-Replies :
      (fuel e deadline : ℕ) (app : SweetDawn Ctx) (w : World)
      → IsLinked state app
      → Replies state (some e) (wait_response os fuel e deadline app w)
  unfolding wait_response
  wait_response-Replies zero e deadline app w v = tt
  wait_response-Replies (suc fuel) e deadline app w v =
      elim (Bool-cases (leb deadline (os.clock w).0)) [
        | inl h ↦ rw (h, wait_response) (failed-IsReply (some e) err_timeout [] app v (λ x. cc))
        | inr h ↦
            rw (h, wait_response)
              (wait_step-Replies e (wait_response os fuel e deadline) app
                (aml_receive os fuel app.connection max_frame_size
                  (some (deadline - (os.clock w).0)) (os.clock w).1)
                v
                (receive-Returns os fuel app.connection max_frame_size
                  (some (deadline - (os.clock w).0)) (os.clock w).1 (omega arith) v.calm)
                (wait_response-Replies fuel e deadline))
      ]

  conclude-Replies :
      (expected : Option ℕ) (r : Option (Code × Bytes × SweetDawn Ctx × World))
      → Replies state expected r
      → Replies state expected (conclude os r)
  unfolding conclude
  conclude-Replies expected none v = tt
  conclude-Replies expected (some (ok, f, app, w)) v = v
  conclude-Replies expected (some (code, f, app, w)) v =
      failed-IsReply expected code [] (traiter_echec_liaison os app code w).0
        (traiter-IsLinked os app code w v.linked) (λ x. cc)

  sent_step-Replies :
      (fuel : ℕ) (expected : Option ℕ) (timeout : ℕ) (app : SweetDawn Ctx)
      (r : Option (Code × World))
      → IsLinked state app
      → Replies state expected (sent_step os fuel expected timeout app r)
  unfolding sent_step
  sent_step-Replies fuel expected timeout app none v = tt
  sent_step-Replies fuel none timeout app (some (ok, w)) v = record {
    linked = v;
    answer = λ e x y. cc;
  }
  sent_step-Replies fuel (some e) timeout app (some (ok, w)) v =
      conclude-Replies (some e)
        (wait_response os fuel e ((os.clock w).0 + timeout) app (os.clock w).1)
        (wait_response-Replies fuel e ((os.clock w).0 + timeout) app (os.clock w).1 v)
  sent_step-Replies fuel expected timeout app (some (code, w)) v =
      conclude-Replies expected (some (code, [], app, w))
        (failed-IsReply expected code [] app v (λ x. cc))

  exchange-Replies :
      (fuel : ℕ) (request : Bytes) (expected : Option ℕ) (timeout : ℕ)
      (r : Option (SweetDawn Ctx × World))
      → Keeps state r
      → Replies state expected (exchange os fuel request expected timeout r)
  unfolding exchange
  exchange-Replies fuel request expected timeout none v = tt
  exchange-Replies fuel request expected timeout (some (app, w)) v =
      if_intro (Replies state expected) (not app.connected)
        (λ h. failed-IsReply expected err_disconnected [] app v (λ x. cc))
        (λ h.
          sent_step-Replies fuel expected timeout app (aml_send os fuel app.connection request w) v)

  pub envoyer-Replies :
      (fuel : ℕ) (app : SweetDawn Ctx) (request_code : ℕ) (expected : Option ℕ) (timeout : ℕ)
      (arguments : Bytes) (w : World)
      → IsLinked state app
      → Replies state expected
          (envoyer_requete os fuel app request_code expected timeout arguments w)
  unfolding envoyer_requete
  envoyer-Replies fuel app request_code expected timeout arguments w v =
      if_intro (Replies state expected) (not app.initialized)
        (λ h. failed-IsReply expected err_generic [] app v (λ x. cc))
        (λ _.
          if_intro (Replies state expected) (not app.connected)
            (λ h. failed-IsReply expected err_disconnected [] app v (λ x. cc))
            (λ _. built (build_request request_code arguments max_frame_size)))
    where
      built :
          (b : Option Bytes)
          → Replies state expected (elim b [
            | none ↦ some (err_generic, [], app, w)
            | some request ↦
                exchange os fuel request expected
                  (if timeout == 0 then response_timeout_ms else timeout)
                  (lire_evenements os fuel app w)
          ])
      built none = failed-IsReply expected err_generic [] app v (λ x. cc)
      built (some request) =
          exchange-Replies fuel request expected
            (if timeout == 0 then response_timeout_ms else timeout) (lire_evenements os fuel app w)
            (lire-Keeps os fuel app w v)

  -- A request that returns 0 and expects a response returned that very response: a well-formed
  -- frame from the AML005 with the expected code, and no failure is counted any more. Any return
  -- keeps the invariant of the supervision.
  pub request_answered :
      (fuel : ℕ) (app : SweetDawn Ctx) (request_code : ℕ) (expected : Option ℕ) (timeout : ℕ)
      (arguments : Bytes) (w : World) (code : Code) (f : Bytes) (app' : SweetDawn Ctx) (w' : World)
      → IsLinked state app
      → envoyer_requete os fuel app request_code expected timeout arguments w
        ≡ some (code, f, app', w')
      → IsReply state expected code f app'
  request_answered fuel app request_code expected timeout arguments w code f app' w' v h =
      subst (Replies state expected) h
        (envoyer-Replies fuel app request_code expected timeout arguments w v)
