-- ===== src/Handlers/Clock/Upkeep.antt =====
-- When the maintenance of the clock (entretenir_horloge of src/app/handlers.c) sends the time, and when it rests.
use sweet_dawn.Base.{
  ℕ, ◌+◌, ◌≤◌, ◌<◌, ◌≡◌, ◌≢◌, ◌⊎◌, inl, inr, refl, arith, subst, true, false, not, Option, none,
  some, if_intro, if◌then◌else◌, pos, ◌+ℤ◌, ◌-ℤ◌,
}
use sweet_dawn.Os.{Os}
use sweet_dawn.Transport.{Code, ok}
use sweet_dawn.Link.{SweetDawn}
use sweet_dawn.Control.{Tm, control_sync_time}
use sweet_dawn.Handlers.Clock.{
  Calendar, clock_resync_ms, clock_retry_ms, rounded, noter_heure, horloge_entretenue, horloge_due,
  entretenir_horloge,
}

module _ (os : Os) (calendar : Calendar os) {Ctx : Type 0} where
  open os use {World}

  -- The time that is sent: that of the system, with the offset of the clock if it was set.
  abbrev pub target : SweetDawn Ctx → World → Tm
  target app w =
      calendar.localtime
        ((calendar.time w).0 +ℤ (if app.clock_set then app.clock_offset_s else pos 0))

  -- The time is due: in the mode "auto", when the date of the next attempt has come, and the clock was not set within
  -- a day.
  pub IsDue : SweetDawn Ctx → ℕ → ℕ → Type 0
  IsDue app now_ms next =
      (app.state.known ≡ true)
      × (app.state.time ≡ 0)
      × (next ≤ now_ms)
      × ((app.clock_set ≡ false) ⊎ (app.clock_synced_ms + clock_resync_ms ≤ now_ms))

  horloge_due-IsDue :
      (app : SweetDawn Ctx) (now_ms next : ℕ)
      → horloge_due os calendar app now_ms next ≡ true
      → IsDue app now_ms next
  unfolding horloge_due IsDue
  horloge_due-IsDue app now_ms next h = ground (arith, h)

  not-IsDue :
      (app : SweetDawn Ctx) (now_ms next : ℕ)
      → horloge_due os calendar app now_ms next ≡ false
      → ¬ IsDue app now_ms next
  unfolding horloge_due IsDue
  not-IsDue app now_ms next h (k, t, n, d) = ground (arith, h, k, t, n, d)

  -- Until a date the maintenance does nothing.
  pub Rests : ℕ → ℕ → SweetDawn Ctx → Type 0
  Rests until next app =
      (fuel later : ℕ) (w : World)
      → later < until
      → entretenir_horloge os calendar fuel app later next w ≡ some (next, app, w)

  -- The time was sent, once. After a success the clock is noted as set at its reading behind the sending, and there is
  -- rest for a day from then; after an error the program is as the sending left it, and there is rest for ten minutes.
  pub record IsTended (fuel : ℕ) (before : SweetDawn Ctx) (now_ms next : ℕ) (w : World) (next' : ℕ)
      (app : SweetDawn Ctx) (w' : World) : Type 0 where
    pub code : Code
    pub answered : SweetDawn Ctx
    pub sent : World
    pub sending :
        control_sync_time os fuel before (target before w) (calendar.time w).1
        ≡ some (code, answered, sent)
    pub success :
        code ≡ ok
        → (next' ≡ next)
          × (app ≡ record answered {
            clock_set = true;
            clock_offset_s =
                rounded ((calendar.mktime (target before w)).0 -ℤ (calendar.time sent).0);
            clock_synced_ms = (os.clock (calendar.time sent).1).0;
          })
          × Rests ((os.clock (calendar.time sent).1).0 + clock_resync_ms) next' app
    pub failure :
        code ≢ ok
        → (next' ≡ now_ms + clock_retry_ms)
          × (app ≡ answered)
          × (w' ≡ sent)
          × Rests (now_ms + clock_retry_ms) next' app

  at_rest :
      (fuel : ℕ) (app : SweetDawn Ctx) (now_ms next : ℕ) (w : World)
      → (now_ms < next)
        ⊎ ((app.clock_set ≡ true) × (now_ms < app.clock_synced_ms + clock_resync_ms))
      → entretenir_horloge os calendar fuel app now_ms next w ≡ some (next, app, w)
  unfolding entretenir_horloge horloge_due
  at_rest fuel app now_ms next w h =
      let e : horloge_due os calendar app now_ms next ≡ false = ground (arith, h) in rw e refl

  abbrev Tends : ℕ → SweetDawn Ctx → ℕ → ℕ → World → Option (ℕ × SweetDawn Ctx × World) → Type 0
  Tends fuel before now_ms next w none = Unit
  Tends fuel before now_ms next w (some (next', app, w')) =
      IsTended fuel before now_ms next w next' app w'

  sent-Tends :
      (fuel : ℕ) (before : SweetDawn Ctx) (now_ms next : ℕ) (w : World)
      (r : Option (Code × SweetDawn Ctx × World))
      → control_sync_time os fuel before (target before w) (calendar.time w).1 ≡ r
      → Tends fuel before now_ms next w
          (horloge_entretenue os calendar now_ms next (target before w) r)
  unfolding horloge_entretenue noter_heure Rests
  sent-Tends fuel before now_ms next w none e = tt
  sent-Tends fuel before now_ms next w (some (ok, app, sent)) e = record {
    code = ok;
    answered = app;
    sent = sent;
    sending = e;
    success = λ _. (
      refl,
      refl,
      λ fuel later u lt.
          at_rest fuel
            (record app {
              clock_set = true;
              clock_offset_s =
                  rounded ((calendar.mktime (target before w)).0 -ℤ (calendar.time sent).0);
              clock_synced_ms = (os.clock (calendar.time sent).1).0;
            })
            later next u (inr (refl, lt)),
    );
    failure = λ n. absurd (n refl);
  }
  sent-Tends fuel before now_ms next w (some (code, app, sent)) e = record {
    code = code;
    answered = app;
    sent = sent;
    sending = e;
    success = λ k. cc;
    failure = λ _. (
      refl,
      refl,
      refl,
      λ fuel later u lt. at_rest fuel app later (now_ms + clock_retry_ms) u (inl lt),
    );
  }

  -- What a call of the maintenance that returns has done.
  pub Maintains : ℕ → SweetDawn Ctx → ℕ → ℕ → World → Option (ℕ × SweetDawn Ctx × World) → Type 0
  Maintains fuel before now_ms next w none = Unit
  Maintains fuel before now_ms next w (some (next', app, w')) =
      ((¬ IsDue before now_ms next) × (next' ≡ next) × (app ≡ before) × (w' ≡ w))
      ⊎ (IsDue before now_ms next × IsTended fuel before now_ms next w next' app w')

  due-Maintains :
      (fuel : ℕ) (before : SweetDawn Ctx) (now_ms next : ℕ) (w : World)
      (r : Option (ℕ × SweetDawn Ctx × World))
      → IsDue before now_ms next
      → Tends fuel before now_ms next w r
      → Maintains fuel before now_ms next w r
  unfolding Maintains
  due-Maintains fuel before now_ms next w none h v = tt
  due-Maintains fuel before now_ms next w (some (n, a, u)) h v = inr (h, v)

  maintained :
      (fuel : ℕ) (app : SweetDawn Ctx) (now_ms next : ℕ) (w : World)
      → Maintains fuel app now_ms next w (entretenir_horloge os calendar fuel app now_ms next w)
  unfolding entretenir_horloge Maintains
  maintained fuel app now_ms next w =
      if_intro (Maintains fuel app now_ms next w) (not (horloge_due os calendar app now_ms next))
        (λ h. inl (not-IsDue app now_ms next (ground (arith, h)), refl, refl, refl))
        (λ h.
          due-Maintains fuel app now_ms next w _
            (horloge_due-IsDue app now_ms next (ground (arith, h)))
            (sent-Tends fuel app now_ms next w _ refl))

  -- The maintenance of the clock that returns has changed nothing, neither in the program nor in
  -- the world, if it was not due. It is due in the mode "auto", once the date of the next attempt
  -- has come, if the clock was not set or a day is over since. If it was due, it has sent once the
  -- time of the system with the offset of the clock: if control_sync_time returned 0, the clock is
  -- noted as set by its reading behind that sending, and the maintenance does nothing for a day
  -- from then; if not, the program is as that sending left it, and the maintenance does nothing
  -- until ten minutes after its date, as long as the program stays so.
  pub entretenir_horloge-IsTended :
      (fuel : ℕ) (app : SweetDawn Ctx) (now_ms next : ℕ) (w : World) (next' : ℕ)
      (app' : SweetDawn Ctx) (w' : World)
      → entretenir_horloge os calendar fuel app now_ms next w ≡ some (next', app', w')
      → ((¬ IsDue app now_ms next) × (next' ≡ next) × (app' ≡ app) × (w' ≡ w))
        ⊎ (IsDue app now_ms next × IsTended fuel app now_ms next w next' app' w')
  unfolding Maintains
  entretenir_horloge-IsTended fuel app now_ms next w next' app' w' h =
      subst (Maintains fuel app now_ms next w) h (maintained fuel app now_ms next w)
