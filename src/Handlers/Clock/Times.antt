-- ===== src/Handlers/Clock/Times.antt =====
-- What a setting of the time leaves (envoyer_heure of src/app/handlers.c).
use sweet_dawn.Base.{
  ℕ, ◌≡◌, ◌≢◌, ◌⊎◌, ◌∙◌, inl, inr, refl, sym, ap, arith, subst, Bool, true, false, not, Option,
  none, some, ◌==◌, if_intro, ℤ, ◌+ℤ◌, ◌-ℤ◌,
}
use sweet_dawn.Os.{Os}
use sweet_dawn.State.{AmlState}
use sweet_dawn.Transport.{Code, ok}
use sweet_dawn.Link.{SweetDawn}
use sweet_dawn.Link.Invariant.{IsLinked}
use sweet_dawn.Core.Refresh.{relinked}
use sweet_dawn.Control.{Tm, control_settings_write, control_sync_time}
use sweet_dawn.Control.Answered.{IsWritten, Writes, Links, sync_time-Links, settings_write-Writes}
use sweet_dawn.Handlers.{Answer, done, verifier}
use sweet_dawn.Handlers.Clock.{
  Calendar, rounded, noter_heure, horloge_aml, heure_envoyee, heure_en_auto, envoyer_heure,
}

module _ (os : Os) (calendar : Calendar os) {Ctx : Type 0} where
  open os use {World}

  -- The AML005 is in the mode "auto": it was, or it was put into it.
  pub IsAuto : ℕ → SweetDawn Ctx → World → SweetDawn Ctx → World → Type 0
  IsAuto fuel app w app₁ w₁ =
      ((app.state.time ≡ 0) × (app₁ ≡ app) × (w₁ ≡ w))
      ⊎ ((app.state.time ≢ 0)
          × (control_settings_write os fuel app (record app.state { time = 0 }) w
              ≡ some (ok, app₁, w₁)))

  -- What is known of the clock of the AML005 once it is set to a time: the time was sent in the mode "auto" with
  -- success, and from then on the clock differs from that of the system as the time that was sent did behind the
  -- sending.
  pub record IsTimed (fuel : ℕ) (before : SweetDawn Ctx) (w : World) (tm : Tm) (app : SweetDawn Ctx)
      : Type 0 where
    pub was_known : before.state.known ≡ true
    pub state : app.state ≡ record before.state { time = 0 }
    pub in_auto : SweetDawn Ctx
    pub between : World
    pub switched : IsAuto fuel before w in_auto between
    pub answered : SweetDawn Ctx
    pub sent : World
    pub sending : control_sync_time os fuel in_auto tm between ≡ some (ok, answered, sent)
    pub shown :
        (w : World)
        → (horloge_aml os calendar app w).0
          ≡ some ((calendar.time w).0 +ℤ rounded ((calendar.mktime tm).0 -ℤ (calendar.time sent).0))

  pub record IsSending (fuel : ℕ) (before : SweetDawn Ctx) (w : World) (tm : Tm) (answer : Answer)
      (app : SweetDawn Ctx) : Type 0 where
    pub linked : IsLinked app.state app
    pub timed : answer ≡ done → IsTimed fuel before w tm app

  abbrev Sends : ℕ → SweetDawn Ctx → World → Tm → Option (Answer × SweetDawn Ctx × World) → Type 0
  Sends fuel before w tm none = Unit
  Sends fuel before w tm (some (answer, app, w')) = IsSending fuel before w tm answer app

  clocked-IsLinked :
      {state : AmlState} {app : SweetDawn Ctx} (set : Bool) (offset : ℤ) (synced : ℕ)
      → IsLinked state app
      → IsLinked state
          (record app { clock_set = set; clock_offset_s = offset; clock_synced_ms = synced })
  clocked-IsLinked set offset synced v = ground arith

  noted-Sends :
      (fuel : ℕ) (before : SweetDawn Ctx) (w : World) (tm : Tm) (in_auto : SweetDawn Ctx)
      (between : World) (app : SweetDawn Ctx) (sent : World)
      → before.state.known ≡ true
      → IsAuto fuel before w in_auto between
      → control_sync_time os fuel in_auto tm between ≡ some (ok, app, sent)
      → IsLinked (record before.state { time = 0 }) app
      → Sends fuel before w tm (heure_envoyee os calendar tm (some (ok, app, sent)))
  unfolding heure_envoyee noter_heure horloge_aml
  noted-Sends fuel before w tm in_auto between app sent k a e v = record {
    linked =
        clocked-IsLinked true (rounded ((calendar.mktime tm).0 -ℤ (calendar.time sent).0))
          (os.clock (calendar.time sent).1).0 (relinked v);
    timed = λ _. record {
      was_known = k;
      state = v.remembers;
      in_auto = in_auto;
      between = between;
      switched = a;
      answered = app;
      sent = sent;
      sending = e;
      shown = λ u. ground (arith, v.remembers, k);
    };
  }

  sent-Sends :
      (fuel : ℕ) (before : SweetDawn Ctx) (w : World) (tm : Tm) (in_auto : SweetDawn Ctx)
      (between : World) (r : Option (Code × SweetDawn Ctx × World))
      → before.state.known ≡ true
      → IsAuto fuel before w in_auto between
      → control_sync_time os fuel in_auto tm between ≡ r
      → Links (record before.state { time = 0 }) r
      → Sends fuel before w tm (heure_envoyee os calendar tm r)
  unfolding heure_envoyee verifier
  sent-Sends fuel before w tm in_auto between none k a e v = tt
  sent-Sends fuel before w tm in_auto between (some (ok, app, sent)) k a e v =
      noted-Sends fuel before w tm in_auto between app sent k a e v
  sent-Sends fuel before w tm in_auto between (some (code, app, sent)) k a e v = record {
    linked = relinked v;
    timed = λ e. cc;
  }

  -- What was done to put the AML005 into the mode "auto".
  abbrev Switches : ℕ → SweetDawn Ctx → World → Option (Code × SweetDawn Ctx × World) → Type 0
  Switches fuel before w none = Unit
  Switches fuel before w (some (code, app, w')) = code ≡ ok → IsAuto fuel before w app w'

  auto-Sends :
      (fuel : ℕ) (before : SweetDawn Ctx) (w : World) (tm : Tm)
      (r : Option (Code × SweetDawn Ctx × World))
      → before.state.known ≡ true
      → Switches fuel before w r
      → Writes before.state (record before.state { time = 0 }) r
      → Sends fuel before w tm (heure_en_auto os calendar fuel tm r)
  unfolding heure_en_auto verifier
  auto-Sends fuel before w tm none k a v = tt
  auto-Sends fuel before w tm (some (ok, app, w')) k a v =
      let e : app.state ≡ record before.state { time = 0 } =
        v.written refl ∙ ap (λ b. record before.state { time = 0; known = b }) (sym k) in
      sent-Sends fuel before w tm app w' (control_sync_time os fuel app tm w') k (a refl) refl (
        sync_time-Links os (record before.state { time = 0 }) fuel app tm w'
          (subst (λ s. IsLinked s app) e v.linked))
  auto-Sends fuel before w tm (some (code, app, w')) k a v = record {
    linked = v.linked;
    timed = λ e. cc;
  }

  already_auto :
      (app : SweetDawn Ctx)
      → app.state.known ≡ true
      → (not (app.state.time == 0)) ≡ false
      → IsLinked app.state app
      → IsWritten app.state (record app.state { time = 0 }) ok app
  already_auto app k h v = record {
    linked = v;
    failed_keeps = λ n. absurd (n refl);
    written = λ _. ground (arith, k, h);
  }

  written-Switches :
      (fuel : ℕ) (app : SweetDawn Ctx) (w : World) (r : Option (Code × SweetDawn Ctx × World))
      → (not (app.state.time == 0)) ≡ true
      → control_settings_write os fuel app (record app.state { time = 0 }) w ≡ r
      → Switches fuel app w r
  unfolding IsAuto
  written-Switches fuel app w none h e = tt
  written-Switches fuel app w (some (ok, app', w')) h e = λ _. inr (ground (arith, h), e)
  written-Switches fuel app w (some (code, app', w')) h e = λ k. cc

  not_switched :
      (fuel : ℕ) (app : SweetDawn Ctx) (w : World)
      → (not (app.state.time == 0)) ≡ false
      → IsAuto fuel app w app w
  unfolding IsAuto
  not_switched fuel app w h = inl (ground (arith, h), refl, refl)

  envoyer-Sends :
      (fuel : ℕ) (app : SweetDawn Ctx) (tm : Tm) (w : World)
      → IsLinked app.state app
      → Sends fuel app w tm (envoyer_heure os calendar fuel app tm w)
  unfolding envoyer_heure
  envoyer-Sends fuel app tm w v =
      let writing = control_settings_write os fuel app (record app.state { time = 0 }) w in
      if_intro (Sends fuel app w tm) (not app.state.known)
        (λ _. record { linked = v; timed = λ e. cc })
        (λ h.
          if_intro (λ r. Sends fuel app w tm (heure_en_auto os calendar fuel tm r))
            (not (app.state.time == 0))
            (λ z.
              auto-Sends fuel app w tm writing (ground (arith, h))
                (written-Switches fuel app w writing z refl)
                (settings_write-Writes os app.state fuel app (record app.state { time = 0 }) w v))
            (λ z.
              auto-Sends fuel app w tm (some (ok, app, w)) (ground (arith, h))
                (λ _. not_switched fuel app w z) (already_auto app (ground (arith, h)) z v)))

  -- A time that was sent with success was sent by a control_sync_time that returned 0, in the mode
  -- "auto", into which the AML005 was put first if it was not in it, with its other settings as
  -- they were; and the clock of the AML005 is then known: at any later moment it is the time of
  -- the system, plus the difference, rounded, of the time that was sent from that of the system
  -- read behind that sending. The invariant of the supervision holds after an error too.
  pub envoyer_heure-IsSending :
      (fuel : ℕ) (app : SweetDawn Ctx) (tm : Tm) (w : World) (answer : Answer)
      (app' : SweetDawn Ctx) (w' : World)
      → IsLinked app.state app
      → envoyer_heure os calendar fuel app tm w ≡ some (answer, app', w')
      → IsSending fuel app w tm answer app'
  envoyer_heure-IsSending fuel app tm w answer app' w' v h =
      subst (Sends fuel app w tm) h (envoyer-Sends fuel app tm w v)
