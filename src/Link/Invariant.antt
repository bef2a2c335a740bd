-- ===== src/Link/Invariant.antt =====
-- The invariant of the supervision (src/core/sweetdawn.c), and that the operations of Link keep it,
-- whatever the system answers.
use sweet_dawn.Base.{
  ℕ, zero, suc, ◌+◌, ◌*◌, ◌≤◌, ◌<◌, true, false, Option, none, some, [], ◌≡◌, ◌≢◌, inl, inr, refl,
  arith, Bool-cases,
}
use Prim.Native.Nat.{◌^◌, min}
use native.Mathlib.Nat.{pow-suc}
use sweet_dawn.Os.{Os}
use sweet_dawn.State.{AmlState}
use sweet_dawn.Protocol.{Bytes, max_frame_size}
use sweet_dawn.Transport.{
  Code, ok, err_timeout, err_disconnected, err_io, AmlConnection, aml_disconnect, aml_receive,
}
use sweet_dawn.Transport.Receive.{IsCalm, IsSound, Returns, receive-Returns}
use sweet_dawn.Link.{
  SweetDawn, backoff_min_ms, backoff_max_ms, max_failures, next_backoff, programmer_reconnexion,
  abandonner_liaison, traiter_echec_liaison, transmettre_evenement, lire_step, lire_loop,
  lire_evenements,
}

-- What holds of `SweetDawn` between two operations.
-- `state` is what it remembers of the settings, which these operations do not touch.
pub record IsLinked {Ctx : Type 0} (state : AmlState) (app : SweetDawn Ctx) : Type 0 where
  pub remembers : app.state ≡ state
  pub backoff_capped : app.connect_backoff_ms ≤ backoff_max_ms
  pub failures_low : app.consecutive_failures < max_failures
  pub open_up : app.connected ≡ true → app.connection.socket_fd ≢ none
  pub closed_down : app.connected ≡ false → app.connection.socket_fd ≡ none
  pub calm : IsCalm app.connection

-- What a function that may run out of fuel leaves keeps the invariant.
abbrev pub Keeps : {Ctx W : Type 0} → AmlState → Option (SweetDawn Ctx × W) → Type 0
Keeps state none = Unit
Keeps state (some (app, w)) = IsLinked state app

-- The delay after `k` failures in a row.
pub backoff_after : ℕ → ℕ
backoff_after zero = 0
backoff_after (suc k) = next_backoff (backoff_after k)

doubled : (d : ℕ) → 1000 ≤ d → next_backoff (min d 30000) ≡ min (d * 2) 30000
unfolding next_backoff
doubled d h = ground arith

one_le_pow : (k : ℕ) → 1 ≤ 2 ^ k
one_le_pow zero = omega arith
one_le_pow (suc k) = omega (arith, pow-suc 2 k, one_le_pow k)

-- After one failure and k more in a row the delay before a new connection is one second doubled k
-- times, or thirty seconds if that is less.
pub backoff_after_lem :
    (k : ℕ) → backoff_after (suc k) ≡ min (backoff_min_ms * 2 ^ k) backoff_max_ms
unfolding backoff_after next_backoff
backoff_after_lem zero = refl
backoff_after_lem (suc k) =
    rw (backoff_after_lem k, doubled (1000 * 2 ^ k) (omega (arith, one_le_pow k)), pow-suc)
      (omega arith)

module _ (os : Os) where
  disconnected :
      (c : AmlConnection) (w : os.World)
      → ((aml_disconnect os c w).0.socket_fd ≡ none) × ((aml_disconnect os c w).0.parser ≡ [])
  unfolding aml_disconnect
  disconnected c w = ground arith

module _ (os : Os) {Ctx : Type 0} {state : AmlState} where
  open os use {World}

  pub programmer-IsLinked :
      (app : SweetDawn Ctx) (w : World)
      → IsLinked state app
      → IsLinked state (programmer_reconnexion os app w).0
  unfolding programmer_reconnexion
  programmer-IsLinked app w v = ground arith

  pub abandonner-IsLinked :
      (app : SweetDawn Ctx) (w : World)
      → app.state ≡ state
      → IsLinked state (abandonner_liaison os app w).0
  unfolding abandonner_liaison
  abandonner-IsLinked app w = ground (arith, disconnected os app.connection w)

  pub traiter-IsLinked :
      (app : SweetDawn Ctx) (code : Code) (w : World)
      → IsLinked state app
      → IsLinked state (traiter_echec_liaison os app code w).0
  unfolding traiter_echec_liaison
  traiter-IsLinked app err_disconnected w v = abandonner-IsLinked app w v.remembers
  traiter-IsLinked app err_io w v = abandonner-IsLinked app w v.remembers
  traiter-IsLinked app code w v = ground (
    arith,
    abandonner-IsLinked (record app { consecutive_failures = app.consecutive_failures + 1 }) w,
  )

  pub transmettre-IsLinked :
      (app : SweetDawn Ctx) (frame : Bytes)
      → IsLinked state app
      → IsLinked state (transmettre_evenement app frame)
  unfolding transmettre_evenement
  transmettre-IsLinked app frame v = ground arith

  pub received-IsLinked :
      (app : SweetDawn Ctx) (code : Code) (f : Bytes) (c : AmlConnection)
      → IsLinked state app
      → IsSound app.connection.socket_fd code f c
      → IsLinked state (record app { connection = c })
  received-IsLinked app code f c v s = ground arith

  lire_step-Keeps :
      (loop : SweetDawn Ctx → World → Option (SweetDawn Ctx × World)) (app : SweetDawn Ctx)
      (r : Option (Code × Bytes × AmlConnection × World))
      → IsLinked state app
      → Returns app.connection.socket_fd r
      → ((a : SweetDawn Ctx) (w : World) → IsLinked state a → Keeps state (loop a w))
      → Keeps state (lire_step os loop app r)
  unfolding lire_step
  lire_step-Keeps loop app none v s k = tt
  lire_step-Keeps loop app (some (ok, f, c, w)) v s k =
      let app' = record app { connection = c } in
      k (transmettre_evenement app' f) w
        (transmettre-IsLinked app' f (received-IsLinked app ok f c v s))
  lire_step-Keeps loop app (some (err_timeout, f, c, w)) v s k =
      received-IsLinked app err_timeout f c v s
  lire_step-Keeps loop app (some (code, f, c, w)) v s k =
      let app' = record app { connection = c } in
      traiter-IsLinked app' code w (received-IsLinked app code f c v s)

  lire_loop-Keeps :
      (rounds fuel : ℕ) (app : SweetDawn Ctx) (w : World)
      → IsLinked state app
      → Keeps state (lire_loop os rounds fuel app w)
  unfolding lire_loop
  lire_loop-Keeps zero fuel app w v = v
  lire_loop-Keeps (suc rounds) fuel app w v = elim (Bool-cases app.connected) [
    | inl e ↦
        rw (e, lire_loop)
          (lire_step-Keeps (lire_loop os rounds fuel) app
            (aml_receive os fuel app.connection max_frame_size (some 0) w) v
            (receive-Returns os fuel app.connection max_frame_size (some 0) w (omega arith) v.calm)
            (lire_loop-Keeps rounds fuel))
    | inr e ↦ rw (e, lire_loop) v
  ]

  pub lire-Keeps :
      (fuel : ℕ) (app : SweetDawn Ctx) (w : World)
      → IsLinked state app
      → Keeps state (lire_evenements os fuel app w)
  unfolding lire_evenements
  lire-Keeps fuel app w v = lire_loop-Keeps 16 fuel app w v
