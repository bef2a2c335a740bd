-- ===== src/Control/Light.antt =====
-- The lamp and the ambient light (src/core/control.c).
use sweet_dawn.Base.{
  ℕ, Bool, not, ◌||◌, Option, none, some, [], ◌∷◌, ltb, leb, ◌==◌, if◌then◌else◌, length, get_or,
}
use sweet_dawn.Os.{Os}
use sweet_dawn.Protocol.{Bytes}
use sweet_dawn.Transport.{Code, ok, err_generic, err_protocol}
use sweet_dawn.Link.{SweetDawn}
use sweet_dawn.Control.{demander, envoyer, decoded}

-- `ControlLight`
pub record ControlLight : Type 0 where
  pub enable : Bool
  pub brightness : ℕ
  pub timer_enable : Bool
  pub timer_minutes : ℕ
  pub red : ℕ
  pub green : ℕ
  pub blue : ℕ
  pub scene : ℕ

-- `cible_valide`: CONTROL_LIGHT or CONTROL_MOOD.
unfoldable pub cible_valide : ℕ → Bool
cible_valide target = target == 1 || target == 2

-- What `control_light_query` makes of the data; those of the lamp have no color and no scene.
unfoldable pub light_of : ℕ → Bytes → Code × Option ControlLight
light_of target d =
    let color = leb 9 (length d) in
    if not (get_or d 0 0 == target) then (err_protocol, none) else (
      ok,
      some (record {
        enable = get_or d 1 0 == 1;
        brightness = get_or d 2 0;
        timer_enable = get_or d 3 0 == 1;
        timer_minutes = get_or d 4 0;
        red = if color then get_or d 5 0 else 0;
        green = if color then get_or d 6 0 else 0;
        blue = if color then get_or d 7 0 else 0;
        scene = if color then get_or d 8 0 else 0;
      }),
    )

module _ (os : Os) {Ctx : Type 0} where
  open os use {World}

  -- `control_light_query`
  unfoldable pub control_light_query :
      ℕ → SweetDawn Ctx → ℕ → World → Option (Code × Option ControlLight × SweetDawn Ctx × World)
  unfolding demander decoded cible_valide light_of
  control_light_query fuel app target w =
      if not (cible_valide target)
      then some (err_generic, none, app, w)
      else decoded (light_of target) (demander os fuel app 0x30 (target ∷ []) 0xD0 0 5 w)

  -- `control_light_enable`
  unfoldable pub control_light_enable :
      ℕ → SweetDawn Ctx → ℕ → Bool → World → Option (Code × SweetDawn Ctx × World)
  unfolding envoyer cible_valide
  control_light_enable fuel app target enable w =
      if not (cible_valide target)
      then some (err_generic, app, w)
      else envoyer os fuel app (if enable then 0x37 else 0x35) (target ∷ []) w

  -- `control_light_brightness`
  unfoldable pub control_light_brightness :
      ℕ → SweetDawn Ctx → ℕ → ℕ → World → Option (Code × SweetDawn Ctx × World)
  unfolding envoyer cible_valide
  control_light_brightness fuel app target brightness w =
      if not (cible_valide target) || ltb 100 brightness
      then some (err_generic, app, w)
      else envoyer os fuel app 0x31 (target ∷ brightness ∷ []) w

  -- `control_light_timer_enable`
  unfoldable pub control_light_timer_enable :
      ℕ → SweetDawn Ctx → ℕ → Bool → World → Option (Code × SweetDawn Ctx × World)
  unfolding envoyer cible_valide
  control_light_timer_enable fuel app target enable w =
      if not (cible_valide target)
      then some (err_generic, app, w)
      else envoyer os fuel app (if enable then 0x38 else 0x36) (target ∷ []) w

  -- `control_light_timer`
  unfoldable pub control_light_timer :
      ℕ → SweetDawn Ctx → ℕ → ℕ → World → Option (Code × SweetDawn Ctx × World)
  unfolding envoyer cible_valide
  control_light_timer fuel app target minutes w =
      if not (cible_valide target)
      then some (err_generic, app, w)
      else envoyer os fuel app 0x33 (target ∷ minutes ∷ []) w

  -- `control_mood_color`
  unfoldable pub control_mood_color :
      ℕ → SweetDawn Ctx → ℕ → ℕ → ℕ → World → Option (Code × SweetDawn Ctx × World)
  unfolding envoyer
  control_mood_color fuel app red green blue w =
      envoyer os fuel app 0x32 (red ∷ green ∷ blue ∷ []) w

  -- `control_mood_scene`
  unfoldable pub control_mood_scene :
      ℕ → SweetDawn Ctx → ℕ → World → Option (Code × SweetDawn Ctx × World)
  unfolding envoyer
  control_mood_scene fuel app scene w = envoyer os fuel app 0x34 (scene ∷ []) w
