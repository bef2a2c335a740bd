-- ===== src/Core/Refresh.antt =====
-- What `sweetdawn_refresh` (src/core/sweetdawn.c) learns, and what it leaves alone when it fails.
use sweet_dawn.Base.{
  ℕ, ◌+◌, ◌≤◌, true, Option, none, some, [], ◌∷◌, ◌≡◌, ◌≢◌, refl, arith, length, get_or, if_intro,
  ltb, not, ◌||◌,
}
use sweet_dawn.Os.{Os}
use sweet_dawn.State.{AmlState}
use sweet_dawn.Protocol.{Bytes}
use sweet_dawn.Transport.{Code, ok, err_generic, err_protocol}
use sweet_dawn.Link.{SweetDawn, refresh_interval_ms, refresh_retry_ms}
use sweet_dawn.Link.Invariant.{IsLinked}
use sweet_dawn.Exchange.{envoyer_requete}
use sweet_dawn.Exchange.Response.{IsAnswer, Replies, envoyer-Replies}
use sweet_dawn.Core.{
  statut_of, demander_statut, parametres_of, demander_parametres, refreshed, parametres_read,
  statut_read, sweetdawn_refresh,
}

-- The settings are the data of a response to the reading of the settings.
pub record AreRead (state : AmlState) (f : Bytes) : Type 0 where
  pub answer : IsAnswer 0xE2 f
  pub known : state.known ≡ true
  pub display : state.display ≡ get_or f 8 0
  pub date : state.date ≡ get_or f 9 0
  pub time : state.time ≡ get_or f 10 0
  pub feedback : state.feedback ≡ get_or f 11 0
  pub fade : state.fade ≡ get_or f 12 0

-- What a reading of the settings promises.
pub record IsReading {Ctx : Type 0} (state : AmlState) (code : Code) (app : SweetDawn Ctx)
    : Type 0 where
  pub linked : IsLinked app.state app
  pub failed_keeps : code ≢ ok → app.state ≡ state
  pub settings : code ≡ ok → (f : Bytes) × AreRead app.state f

abbrev Reads : {Ctx W : Type 0} → AmlState → Option (Code × SweetDawn Ctx × W) → Type 0
Reads state none = Unit
Reads state (some (code, app, w)) = IsReading state code app

abbrev pub Authorizes : {Ctx W : Type 0} → AmlState → Option (Code × ℕ × SweetDawn Ctx × W) → Type 0
Authorizes state none = Unit
Authorizes state (some (code, a, app, w)) = IsLinked state app

-- What `sweetdawn_refresh` promises.
pub record IsRefreshed {Ctx : Type 0} (state : AmlState) (code : Code) (app : SweetDawn Ctx)
    : Type 0 where
  pub reading : IsReading state code app
  pub rested : code ≡ ok → app.connect_backoff_ms ≡ 0
  pub dated :
      code ≡ ok
      → (t : ℕ) × (app.last_refresh_ms ≡ some t) × (app.next_refresh_ms ≡ t + refresh_interval_ms)

abbrev pub Refreshes : {Ctx W : Type 0} → AmlState → Option (Code × SweetDawn Ctx × W) → Type 0
Refreshes state none = Unit
Refreshes state (some (code, app, w)) = IsRefreshed state code app

-- The invariant names the settings that the application holds.
pub relinked :
    {Ctx : Type 0} {state : AmlState} {app : SweetDawn Ctx}
    → IsLinked state app
    → IsLinked app.state app
relinked v = ground arith

pub settings-IsLinked :
    {Ctx : Type 0} {state settings : AmlState} {app : SweetDawn Ctx}
    → IsLinked state app
    → IsLinked settings (record app { state = settings })
settings-IsLinked v = ground arith

pub authorized-IsLinked :
    {Ctx : Type 0} {state : AmlState} {app : SweetDawn Ctx} (a : ℕ)
    → IsLinked state app
    → IsLinked state (record app { authorization = a })
authorized-IsLinked a v = ground arith

-- The dates and the delay are no part of what is remembered.
dated-IsLinked :
    {Ctx : Type 0} {app : SweetDawn Ctx} (last : Option ℕ) (next backoff : ℕ)
    → IsLinked app.state app
    → backoff ≤ app.connect_backoff_ms
    → IsLinked app.state (record app {
      last_refresh_ms = last;
      next_refresh_ms = next;
      connect_backoff_ms = backoff;
    })
dated-IsLinked last next backoff v h = ground arith

failed-IsReading :
    {Ctx : Type 0} (state : AmlState) (code : Code) (app : SweetDawn Ctx)
    → IsLinked state app
    → code ≢ ok
    → IsReading state code app
failed-IsReading state code app v h = record {
  linked = relinked v;
  failed_keeps = λ _. v.remembers;
  settings = λ e. absurd (h e);
}

module _ (os : Os) {Ctx : Type 0} (state : AmlState) where
  open os use {World}

  pub statut_of-Authorizes :
      (r : Option (Code × Bytes × SweetDawn Ctx × World))
      → Replies state (some 0xF0) r
      → Authorizes state (statut_of os r)
  unfolding statut_of
  statut_of-Authorizes none v = tt
  statut_of-Authorizes (some (ok, f, app, w)) v =
      if_intro (Authorizes state) (ltb (length f) 9) (λ _. v.linked) (λ _. v.linked)
  statut_of-Authorizes (some (code, f, app, w)) v = v.linked

  parametres_of-Reads :
      (r : Option (Code × Bytes × SweetDawn Ctx × World))
      → Replies state (some 0xE2) r
      → Reads state (parametres_of os r)
  unfolding parametres_of
  parametres_of-Reads none v = tt
  parametres_of-Reads (some (ok, f, app, w)) v =
      if_intro (Reads state) (ltb (length f) 14)
        (λ _. failed-IsReading state err_protocol app v.linked (λ x. cc))
        (λ _. record {
          linked = settings-IsLinked v.linked;
          failed_keeps = λ h. absurd (h refl);
          settings = λ _. (
            f,
            record {
              answer = (v.answer 0xE2 refl refl).0;
              known = refl;
              display = refl;
              date = refl;
              time = refl;
              feedback = refl;
              fade = refl;
            },
          );
        })
  parametres_of-Reads (some (code, f, app, w)) v =
      failed-IsReading state code app v.linked (λ x. cc)

  refreshed-IsRefreshed :
      (code : Code) (app : SweetDawn Ctx) (w : World)
      → IsReading state code app
      → IsRefreshed state code (refreshed os code app w).0
  unfolding refreshed
  refreshed-IsRefreshed ok app w v =
      let now = (os.clock w).0 in
      record {
        reading = record {
          linked = dated-IsLinked (some now) (now + refresh_interval_ms) 0 v.linked (omega arith);
          failed_keeps = v.failed_keeps;
          settings = v.settings;
        };
        rested = λ _. refl;
        dated = λ _. (now, refl, refl);
      }
  refreshed-IsRefreshed code app w v = record {
    reading = record {
      linked =
          dated-IsLinked app.last_refresh_ms ((os.clock w).0 + refresh_retry_ms)
            app.connect_backoff_ms v.linked (omega arith);
      failed_keeps = v.failed_keeps;
      settings = v.settings;
    };
    rested = λ x. cc;
    dated = λ x. cc;
  }

  parametres_read-Refreshes :
      (r : Option (Code × SweetDawn Ctx × World))
      → Reads state r
      → Refreshes state (parametres_read os r)
  unfolding parametres_read
  parametres_read-Refreshes none v = tt
  parametres_read-Refreshes (some (code, app, w)) v = refreshed-IsRefreshed code app w v

  statut_read-Refreshes :
      (fuel : ℕ) (r : Option (Code × ℕ × SweetDawn Ctx × World))
      → Authorizes state r
      → Refreshes state (statut_read os fuel r)
  unfolding statut_read demander_parametres
  statut_read-Refreshes fuel none v = tt
  statut_read-Refreshes fuel (some (ok, a, app, w)) v =
      let app' = record app { authorization = a } in
      let asked = envoyer_requete os fuel app' 0x12 (some 0xE2) 0 [] w in
      parametres_read-Refreshes (parametres_of os asked) (
        parametres_of-Reads asked
          (envoyer-Replies os state fuel app' 0x12 (some 0xE2) 0 [] w (authorized-IsLinked a v)))
  statut_read-Refreshes fuel (some (code, a, app, w)) v =
      refreshed-IsRefreshed code app w (failed-IsReading state code app v (λ x. cc))

  -- Without an open link nothing is read.
  unasked : (app : SweetDawn Ctx) → IsLinked state app → IsRefreshed state err_generic app
  unasked app v = record {
    reading = failed-IsReading state err_generic app v (λ x. cc);
    rested = λ x. cc;
    dated = λ x. cc;
  }

  pub refresh-Refreshes :
      (fuel : ℕ) (app : SweetDawn Ctx) (w : World)
      → IsLinked state app
      → Refreshes state (sweetdawn_refresh os fuel app w)
  unfolding sweetdawn_refresh demander_statut
  refresh-Refreshes fuel app w v =
      let asked = envoyer_requete os fuel app 0x00 (some 0xF0) 0 (0x16 ∷ []) w in
      if_intro (Refreshes state) (not app.initialized || not app.connected) (λ _. unasked app v)
        (λ _. statut_read-Refreshes fuel (statut_of os asked) (
          statut_of-Authorizes asked
            (envoyer-Replies os state fuel app 0x00 (some 0xF0) 0 (0x16 ∷ []) w v)))
