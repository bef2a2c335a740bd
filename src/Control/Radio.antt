-- ===== src/Control/Radio.antt =====
-- The radio (src/core/control.c).
use sweet_dawn.Base.{
  ℕ, ◌+◌, ◌*◌, Bool, true, false, ◌||◌, Option, some, [], ◌∷◌, ltb, ◌==◌, if◌then◌else◌, get_or,
}
use sweet_dawn.Os.{Os}
use sweet_dawn.Protocol.{Bytes}
use sweet_dawn.Transport.{Code, ok, err_generic}
use sweet_dawn.Link.{SweetDawn}
use sweet_dawn.Control.{demander, envoyer, decoded, acknowledged, flag}

-- `RADIO_SEEK_TIMEOUT_MS`
abbrev pub radio_seek_timeout_ms : ℕ
radio_seek_timeout_ms = 15000

-- `ControlRadio`
pub record ControlRadio : Type 0 where
  pub enable : Bool
  pub channel : ℕ
  pub frequency : ℕ
  pub volume : ℕ
  pub timer_enable : Bool
  pub timer_minutes : ℕ

-- `ControlTune`
pub data ControlTune : Type 0 where
  tune_up tune_down seek_up seek_down : ControlTune

-- `(high << 8) | low`, for two bytes.
abbrev pub frequency_of : ℕ → ℕ → ℕ
frequency_of high low = high * 256 + low

-- What `control_radio_query` makes of the data.
unfoldable pub radio_of : Bytes → Code × Option ControlRadio
radio_of d = (
  ok,
  some (record {
    enable = get_or d 0 0 == 1;
    channel = get_or d 1 0;
    frequency = frequency_of (get_or d 2 0) (get_or d 3 0);
    volume = get_or d 4 0;
    timer_enable = get_or d 5 0 == 1;
    timer_minutes = get_or d 6 0;
  }),
)

-- `seek` and `down` of `control_radio_tune`
unfoldable pub seek_of : ControlTune → Bool
seek_of seek_up = true
seek_of seek_down = true
seek_of _ = false

unfoldable pub down_of : ControlTune → Bool
down_of tune_down = true
down_of seek_down = true
down_of _ = false

-- What `control_radio_tune` makes of the data.
unfoldable pub tuned_of : Bytes → Code × Option ℕ
tuned_of d = (ok, some (frequency_of (get_or d 2 0) (get_or d 3 0)))

module _ (os : Os) {Ctx : Type 0} where
  open os use {World}

  -- `control_radio_query`
  unfoldable pub control_radio_query :
      ℕ → SweetDawn Ctx → World → Option (Code × Option ControlRadio × SweetDawn Ctx × World)
  unfolding demander decoded radio_of
  control_radio_query fuel app w = decoded radio_of (demander os fuel app 0x07 (2 ∷ []) 0xF7 0 7 w)

  -- `control_radio_enable`
  unfoldable pub control_radio_enable :
      ℕ → SweetDawn Ctx → Bool → World → Option (Code × SweetDawn Ctx × World)
  unfolding demander acknowledged
  control_radio_enable fuel app enable w =
      acknowledged (demander os fuel app 0x08 (flag enable ∷ []) 0xF8 0 0 w)

  -- `control_radio_tune`
  unfoldable pub control_radio_tune :
      ℕ → SweetDawn Ctx → ControlTune → World → Option (Code × Option ℕ × SweetDawn Ctx × World)
  unfolding demander decoded seek_of down_of tuned_of
  control_radio_tune fuel app direction w = decoded tuned_of (
      demander os fuel app 0x0A (flag (seek_of direction) ∷ flag (down_of direction) ∷ []) 0xFA
        (if seek_of direction then radio_seek_timeout_ms else 0) 4 w)

  -- `control_radio_preset`
  unfoldable pub control_radio_preset :
      ℕ → SweetDawn Ctx → ℕ → World → Option (Code × SweetDawn Ctx × World)
  unfolding demander acknowledged
  control_radio_preset fuel app channel w =
      if ltb channel 1 || ltb 10 channel
      then some (err_generic, app, w)
      else acknowledged (demander os fuel app 0x09 (channel ∷ []) 0xF9 0 0 w)

  -- `control_radio_volume`
  unfoldable pub control_radio_volume :
      ℕ → SweetDawn Ctx → ℕ → World → Option (Code × SweetDawn Ctx × World)
  unfolding envoyer
  control_radio_volume fuel app volume w = envoyer os fuel app 0x0B (volume ∷ []) w

  -- `control_radio_timer_enable`
  unfoldable pub control_radio_timer_enable :
      ℕ → SweetDawn Ctx → Bool → World → Option (Code × SweetDawn Ctx × World)
  unfolding envoyer
  control_radio_timer_enable fuel app enable w = envoyer os fuel app 0x0C (flag enable ∷ []) w

  -- `control_radio_timer`
  unfoldable pub control_radio_timer :
      ℕ → SweetDawn Ctx → ℕ → World → Option (Code × SweetDawn Ctx × World)
  unfolding envoyer
  control_radio_timer fuel app minutes w = envoyer os fuel app 0x0D (minutes ∷ []) w
