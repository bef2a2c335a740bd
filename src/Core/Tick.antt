-- ===== src/Core/Tick.antt =====
-- The periodic task `sweetdawn_tick` (src/core/sweetdawn.c): it keeps the invariant of the
-- supervision, and when it does what.
use sweet_dawn.Base.{
  ℕ, ◌+◌, ◌%◌, ◌^◌, true, false, Option, none, some, ◌≡◌, refl, sym, arith, if_intro, subst, leb,
  ltb, not, ◌&&◌,
}
use sweet_dawn.Os.{Os}
use sweet_dawn.State.{AmlState}
use sweet_dawn.Transport.{Code, ok, err_generic, AmlConnection, AmlConfig}
use sweet_dawn.Connect.{aml_connect}
use sweet_dawn.Connect.Opened.{IsOpened, connect-IsOpened}
use sweet_dawn.Link.{SweetDawn, lire_evenements, programmer_reconnexion}
use sweet_dawn.Link.Invariant.{IsLinked, Keeps, lire-Keeps, programmer-IsLinked}
use sweet_dawn.Core.{
  sweetdawn_refresh, connected_step, connect_device, sweetdawn_connect, tick_end, tick_connected,
  tick_read, sweetdawn_tick,
}
use sweet_dawn.Core.Refresh.{Refreshes, relinked, refresh-Refreshes}

-- What a connection attempt promises.
pub record IsConnection {Ctx : Type 0} (before : SweetDawn Ctx) (code : Code) (app : SweetDawn Ctx)
    : Type 0 where
  pub linked : IsLinked before.state app
  pub connected : code ≡ ok → app.connected ≡ true
  pub same_start : app.initialized ≡ before.initialized
  pub same_delay : app.connect_backoff_ms ≡ before.connect_backoff_ms

abbrev Connects : {Ctx W : Type 0} → SweetDawn Ctx → Option (Code × SweetDawn Ctx × W) → Type 0
Connects before none = Unit
Connects before (some (code, app, w)) = IsConnection before code app

-- What holds behind `sweetdawn_tick`.
abbrev pub Ticks : {Ctx W : Type 0} → Option (SweetDawn Ctx × W) → Type 0
Ticks none = Unit
Ticks (some (app, w)) = IsLinked app.state app

-- An attempt that is not made.
unmoved :
    {Ctx : Type 0} (app : SweetDawn Ctx) (code : Code)
    → IsLinked app.state app
    → (code ≡ ok → app.connected ≡ true)
    → IsConnection app code app
unmoved app code v h = record { linked = v; connected = h; same_start = refl; same_delay = refl }

counted-IsLinked :
    {Ctx : Type 0} {state : AmlState} {app : SweetDawn Ctx} (n : ℕ)
    → IsLinked state app
    → IsLinked state (record app { connect_count = n })
counted-IsLinked n v = ground arith

module _ (os : Os) {Ctx : Type 0} where
  open os use {World}

  connected_step-Connects :
      (app : SweetDawn Ctx) (r : Option (Code × AmlConnection × World))
      → IsLinked app.state app
      → app.connected ≡ false
      → ((code : Code) (c : AmlConnection) (w : World) → r ≡ some (code, c, w) → IsOpened code c)
      → Connects app (connected_step os app r)
  unfolding connected_step
  connected_step-Connects app none v d k = tt
  connected_step-Connects app (some (ok, c, w)) v d k = ground (arith, k ok c w refl)
  connected_step-Connects app (some (code, c, w)) v d k = ground (arith, k code c w refl)

  device-Connects :
      (fuel : ℕ) (app : SweetDawn Ctx) (w : World) (device : Option AmlConfig)
      → IsLinked app.state app
      → Connects app (connect_device os fuel app w device)
  unfolding connect_device
  device-Connects fuel app w none v = unmoved app err_generic v (λ x. cc)
  device-Connects fuel app w (some device) v =
      if_intro (Connects app) (not app.initialized) (λ _. unmoved app err_generic v (λ x. cc))
        (λ _.
          if_intro (Connects app) app.connected (λ up. unmoved app ok v (λ _. up))
            (λ down.
              connected_step-Connects app (aml_connect os fuel device w) v down
                (λ code c w'. connect-IsOpened os fuel device w code c w')))

  connect-Connects :
      (fuel : ℕ) (app : SweetDawn Ctx) (w : World)
      → IsLinked app.state app
      → Connects app (sweetdawn_connect os fuel app w)
  unfolding sweetdawn_connect
  connect-Connects fuel app w v = device-Connects fuel app w app.device v

  tick_end-Ticks :
      (state : AmlState) (r : Option (Code × SweetDawn Ctx × World))
      → Refreshes state r
      → Ticks (tick_end os r)
  unfolding tick_end
  tick_end-Ticks state none v = tt
  tick_end-Ticks state (some (code, app, w)) v = v.reading.linked

  tick_connected-Ticks :
      (fuel : ℕ) (before : SweetDawn Ctx) (r : Option (Code × SweetDawn Ctx × World))
      → Connects before r
      → Ticks (tick_connected os fuel r)
  unfolding tick_connected
  tick_connected-Ticks fuel before none v = tt
  tick_connected-Ticks fuel before (some (ok, app, w)) v =
      let app' = record app { connect_count = (app.connect_count + 1) % 2 ^ 32 } in
      tick_end-Ticks before.state (sweetdawn_refresh os fuel app' w) (
        refresh-Refreshes os before.state fuel app' w
          (counted-IsLinked app'.connect_count v.linked))
  tick_connected-Ticks fuel before (some (code, app, w)) v =
      subst (λ x. IsLinked x (programmer_reconnexion os app w).0) (sym v.linked.remembers)
        (programmer-IsLinked os app w v.linked)

  tick_read-Ticks :
      (fuel now : ℕ) (state : AmlState) (r : Option (SweetDawn Ctx × World))
      → Keeps state r
      → Ticks (tick_read os fuel now r)
  unfolding tick_read
  tick_read-Ticks fuel now state none v = tt
  tick_read-Ticks fuel now state (some (app, w)) v =
      if_intro Ticks (app.connected && leb app.next_refresh_ms now)
        (λ _.
          tick_end-Ticks state (sweetdawn_refresh os fuel app w)
            (refresh-Refreshes os state fuel app w v))
        (λ _. relinked v)

  pub tick-Ticks :
      (fuel : ℕ) (app : SweetDawn Ctx) (w : World)
      → IsLinked app.state app
      → Ticks (sweetdawn_tick os fuel app w)
  unfolding sweetdawn_tick
  tick-Ticks fuel app w v =
      let now = (os.clock w).0 in
      let w' = (os.clock w).1 in
      if_intro Ticks (not app.initialized) (λ _. v)
        (λ _.
          if_intro Ticks app.connected
            (λ _.
              tick_read-Ticks fuel now app.state (lire_evenements os fuel app w')
                (lire-Keeps os fuel app w' v))
            (λ _.
              if_intro Ticks (ltb now app.next_connect_ms) (λ _. v)
                (λ _.
                  tick_connected-Ticks fuel app (sweetdawn_connect os fuel app w')
                    (connect-Connects fuel app w' v))))

-- A periodic task that returns keeps the invariant of the supervision, whatever the system
-- answers: the delay before a new connection is at most thirty seconds, fewer than three failures
-- are counted, the link is up exactly when its socket is open, and the receive buffer has room for
-- the next reading.
pub tick-IsLinked :
    (os : Os) {Ctx : Type 0} (fuel : ℕ) (app : SweetDawn Ctx) (w : os.World) (app' : SweetDawn Ctx)
    (w' : os.World)
    → IsLinked app.state app
    → sweetdawn_tick os fuel app w ≡ some (app', w')
    → IsLinked app'.state app'
tick-IsLinked os fuel app w app' w' v h = subst Ticks h (tick-Ticks os fuel app w v)
