-- ===== src/Core/Stored.antt =====
-- That `sweetdawn_refresh` (src/core/sweetdawn.c) stores what the AML005 answers.
use sweet_dawn.Base.{
  ℕ, ◌+◌, ◌≤◌, ◌≡◌, refl, arith, not, ◌||◌, Option, none, some, [], ◌∷◌, length, ltb, if_intro,
  subst,
}
use sweet_dawn.Os.{Os}
use sweet_dawn.Protocol.{Bytes}
use sweet_dawn.Transport.{Code, ok}
use sweet_dawn.Link.{SweetDawn, refresh_interval_ms}
use sweet_dawn.Link.Invariant.{IsLinked}
use sweet_dawn.Exchange.{envoyer_requete}
use sweet_dawn.Exchange.Response.{Replies, envoyer-Replies}
use sweet_dawn.Core.{
  demander_statut, statut_of, parametres_of, refreshed, parametres_read, demander_parametres,
  statut_read, sweetdawn_refresh,
}
use sweet_dawn.Core.Refresh.{
  AreRead, IsRefreshed, Refreshes, Authorizes, statut_of-Authorizes, authorized-IsLinked,
  refresh-Refreshes,
}

-- A reading of the settings with success: the request for the status returned 0, the request for the settings
-- behind it returned 0 with a response, and the settings are the data of that response.
pub record IsStored (os : Os) {Ctx : Type 0} (fuel : ℕ) (app : SweetDawn Ctx) (w : os.World)
    (app' : SweetDawn Ctx) : Type 0 where
  pub authorization : ℕ
  pub asked : SweetDawn Ctx
  pub between : os.World
  pub status : demander_statut os fuel app w ≡ some (ok, authorization, asked, between)
  pub response : Bytes
  pub answered : SweetDawn Ctx
  pub behind : os.World
  pub answer :
      envoyer_requete os fuel
        (record asked { authorization = authorization })
        0x12
        (some 0xE2)
        0
        []
        between
      ≡ some (ok, response, answered, behind)
  pub whole : 14 ≤ length response
  pub read : AreRead app'.state response
  pub dated : app'.last_refresh_ms ≡ some (os.clock behind).0
  pub next : app'.next_refresh_ms ≡ (os.clock behind).0 + refresh_interval_ms

module _ (os : Os) {Ctx : Type 0} (fuel : ℕ) (app : SweetDawn Ctx) (w : os.World) where
  open os use {World}

  abbrev Stores : Option (Code × SweetDawn Ctx × World) → Type 0
  Stores none = Unit
  Stores (some (code, app', w')) = code ≡ ok → IsStored os fuel app w app'

  answered-Stores :
      (a : ℕ) (asked : SweetDawn Ctx) (between : World)
      (r : Option (Code × Bytes × SweetDawn Ctx × World))
      → demander_statut os fuel app w ≡ some (ok, a, asked, between)
      → envoyer_requete os fuel (record asked { authorization = a }) 0x12 (some 0xE2) 0 [] between
        ≡ r
      → Replies app.state (some 0xE2) r
      → Stores (parametres_read os (parametres_of os r))
  unfolding parametres_of parametres_read refreshed
  answered-Stores a asked between none s e v = tt
  answered-Stores a asked between (some (ok, f, answered, behind)) s e v =
      if_intro (λ x. Stores (parametres_read os x)) (ltb (length f) 14) (λ _. λ x. cc)
        (λ h. λ _. record {
          authorization = a;
          asked = asked;
          between = between;
          status = s;
          response = f;
          answered = answered;
          behind = behind;
          answer = e;
          whole = ground (arith, h);
          read = record {
            answer = (v.answer 0xE2 refl refl).0;
            known = refl;
            display = refl;
            date = refl;
            time = refl;
            feedback = refl;
            fade = refl;
          };
          dated = refl;
          next = refl;
        })
  answered-Stores a asked between (some (code, f, answered, behind)) s e v = λ x. cc

  status-Stores :
      (r : Option (Code × ℕ × SweetDawn Ctx × World))
      → demander_statut os fuel app w ≡ r
      → Authorizes app.state r
      → Stores (statut_read os fuel r)
  unfolding statut_read demander_parametres refreshed
  status-Stores none e v = tt
  status-Stores (some (ok, a, asked, between)) e v =
      let app' = record asked { authorization = a } in
      answered-Stores a asked between (envoyer_requete os fuel app' 0x12 (some 0xE2) 0 [] between) e
        refl
        (envoyer-Replies os app.state fuel app' 0x12 (some 0xE2) 0 [] between
          (authorized-IsLinked a v))
  status-Stores (some (code, a, asked, between)) e v = λ x. cc

  refresh-Stores : IsLinked app.state app → Stores (sweetdawn_refresh os fuel app w)
  unfolding sweetdawn_refresh demander_statut
  refresh-Stores v =
      let asked = envoyer_requete os fuel app 0x00 (some 0xF0) 0 (0x16 ∷ []) w in
      if_intro Stores (not app.initialized || not app.connected) (λ _. λ x. cc)
        (λ _. status-Stores (statut_of os asked) refl (
          statut_of-Authorizes os app.state asked
            (envoyer-Replies os app.state fuel app 0x00 (some 0xF0) 0 (0x16 ∷ []) w v)))

-- A reading of the settings that returns 0 has asked for the status with success and then for the
-- settings with success, and has stored the five settings of the very response that this second
-- request returned, a well-formed frame of at least 14 bytes for them, has dated them by the clock
-- behind it, and has reset the delay of the next reconnection; with any other code the remembered
-- settings are as before. The invariant of the supervision holds either way.
pub refresh_lem :
    (os : Os) {Ctx : Type 0} (fuel : ℕ) (app : SweetDawn Ctx) (w : os.World) (code : Code)
    (app' : SweetDawn Ctx) (w' : os.World)
    → IsLinked app.state app
    → sweetdawn_refresh os fuel app w ≡ some (code, app', w')
    → IsRefreshed app.state code app' × (code ≡ ok → IsStored os fuel app w app')
refresh_lem os fuel app w code app' w' v h = (
  subst (Refreshes app.state) h (refresh-Refreshes os app.state fuel app w v),
  subst (Stores os fuel app w) h (refresh-Stores os fuel app w v),
)
