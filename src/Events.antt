-- ===== src/Events.antt =====
-- The events of src/app/handlers.c: unsolicited messages are noted, treated at the next turn, and the
-- state of each alarm is followed. The static `evenements` is the context that the application
-- keeps for its event handler, since a request may note messages; a broadcast is a value of
-- `Diffusion` instead of a JSON object, added behind those already made.
pub mod Watch
pub mod Suivi
use sweet_dawn.Base.{
  ℕ, ◌+◌, ◌*◌, Bool, true, false, not, ◌&&◌, ◌||◌, Option, none, some, List, [], ◌∷◌, ◌++◌, ltb,
  leb, ◌==◌, if◌then◌else◌, length, get_or,
}
use sweet_dawn.Os.{Os}
use sweet_dawn.Protocol.{Bytes}
use sweet_dawn.Transport.{Code, ok}
use sweet_dawn.Link.{SweetDawn}
use sweet_dawn.Control.Light.{ControlLight, control_light_query}
use sweet_dawn.Control.Alarm.{ControlAlarm, control_alarm_query, control_alarm_status}

-- `ALARM_WATCH_MS`, `EVENT_QUEUE_SIZE` and `SNOOZE_MARGIN_MS`
abbrev pub alarm_watch_ms : ℕ
alarm_watch_ms = 1000

abbrev pub event_queue_size : ℕ
event_queue_size = 16

abbrev pub snooze_margin_ms : ℕ
snooze_margin_ms = 60000

-- `SNOOZE_MINUTES`
abbrev pub snooze_minutes : List ℕ
snooze_minutes = 1 ∷ 2 ∷ 5 ∷ 10 ∷ 20 ∷ 30 ∷ []

-- `EtatReveil`
pub data EtatReveil : Type 0 where
  reveil_repos reveil_lever reveil_sonne reveil_snooze : EtatReveil

-- The number of a state, to compare two of them.
abbrev pub rang : EtatReveil → ℕ
rang reveil_repos = 0
rang reveil_lever = 1
rang reveil_sonne = 2
rang reveil_snooze = 3

-- `SuiviAlarme`
pub record SuiviAlarme : Type 0 where
  pub etat : EtatReveil
  pub a_sonne : Bool
  pub fin_snooze_ms : ℕ

-- What is broadcast: the states of the two alarms, the timer that ended (by the code of its
-- message), the two lights.
pub data Diffusion : Type 0 where
  alarm_state : EtatReveil → EtatReveil → Diffusion
  timer_ended : ℕ → Diffusion
  light_changed : ControlLight → ControlLight → Diffusion

-- `evenements`, with its array `alarmes` as two fields.
pub record Evenements : Type 0 where
  pub file : List (ℕ × ℕ)
  pub eclairage_change : Bool
  pub alarme_1 : SuiviAlarme
  pub alarme_2 : SuiviAlarme
  pub reveil_change : Bool
  pub surveiller : Bool
  pub prochaine_lecture_ms : ℕ
  pub arret_demande : Bool
  pub connexions : ℕ
  pub diffusions : List Diffusion

-- `handlers_on_event`
unfoldable pub handlers_on_event : Evenements → ℕ → Bytes → Evenements
handlers_on_event e code bytes =
    if code == 0xCA
    then record e { eclairage_change = true }
    else if ltb (length e.file) event_queue_size
    then record e { file = e.file ++ ((code, get_or bytes 0 0) ∷ []) }
    else e

-- `evenements.alarmes[numero - 1]`, for 1 or 2.
abbrev pub alarme : ℕ → Evenements → SuiviAlarme
alarme numero e = if numero == 1 then e.alarme_1 else e.alarme_2

abbrev pub with_alarme : ℕ → SuiviAlarme → Evenements → Evenements
with_alarme numero a e =
    if numero == 1 then record e { alarme_1 = a } else record e { alarme_2 = a }

-- `changer_alarme`
unfoldable pub changer_alarme : ℕ → EtatReveil → Evenements → Evenements
changer_alarme numero etat e =
    if ltb numero 1 || ltb 2 numero || rang (alarme numero e).etat == rang etat
    then e
    else record (with_alarme numero (record (alarme numero e) { etat = etat }) e) {
      reveil_change = true;
    }

-- `diffuser`
abbrev pub diffuser : Diffusion → Evenements → Evenements
diffuser d e = record e { diffusions = e.diffusions ++ (d ∷ []) }

-- `diffuser_reveil`
unfoldable pub diffuser_reveil : Evenements → Evenements
diffuser_reveil e =
    if e.reveil_change
    then diffuser (alarm_state e.alarme_1.etat e.alarme_2.etat) (record e { reveil_change = false })
    else e

-- `surveiller_alarme_bientot` and `noter_arret_demande`
unfoldable pub surveiller_alarme_bientot : Evenements → Evenements
surveiller_alarme_bientot e = record e { surveiller = true; prochaine_lecture_ms = 0 }

unfoldable pub noter_arret_demande : Evenements → Evenements
noter_arret_demande e = record e { arret_demande = true }

-- The two messages on an alarm in `traiter_evenements`, behind the change of the alarm.
abbrev pub surveillee : ℕ → Evenements → Evenements
surveillee now e = record e {
  arret_demande = false;
  surveiller = true;
  prochaine_lecture_ms = now + alarm_watch_ms;
}

-- One message of the loop of `traiter_evenements`.
unfoldable pub traiter_message : ℕ → ℕ → ℕ → Evenements → Evenements
unfolding changer_alarme
traiter_message now code value e =
    let known = leb 1 value && leb value 2 in
    let a = alarme value e in
    if code == 0xC6
    then surveillee now (
        if known
        then changer_alarme value reveil_lever (with_alarme value (record a { a_sonne = false }) e)
        else e)
    else if code == 0xC7
    then surveillee now (
        if known
        then changer_alarme value reveil_sonne
            (with_alarme value (record a { a_sonne = true; fin_snooze_ms = 0 }) e)
        else e)
    else if code == 0xEB || code == 0xEC
    then diffuser (timer_ended code) (record e { eclairage_change = true })
    else if code == 0xED || code == 0xEE
    then diffuser (timer_ended code) e
    else e

-- The loop of `traiter_evenements`.
unfoldable pub traiter_file : ℕ → List (ℕ × ℕ) → Evenements → Evenements
unfolding traiter_message
traiter_file now [] e = e
traiter_file now ((code, value) ∷ rest) e = traiter_file now rest (traiter_message now code value e)

-- `traiter_evenements` up to the reading of the lights.
unfoldable pub traiter_notes : ℕ → Evenements → Evenements
unfolding traiter_file diffuser_reveil
traiter_notes now e = diffuser_reveil (record (traiter_file now e.file e) { file = [] })

-- One alarm of the loop of `suivre_reveil`, when the ringing has not just ceased.
unfoldable pub suivre_alarme : ℕ → ℕ → ℕ → ℕ → Evenements → Evenements
unfolding changer_alarme
suivre_alarme now lever sonne n e =
    let a = alarme n e in
    if sonne == n
    then changer_alarme n reveil_sonne
        (with_alarme n (record a { a_sonne = true; fin_snooze_ms = 0 }) e)
    else if lever == n && not e.arret_demande
    then changer_alarme n (if a.a_sonne then reveil_snooze else reveil_lever) e
    else if rang a.etat == 3 && not e.arret_demande && ltb now a.fin_snooze_ms
    then e
    else changer_alarme n reveil_repos
        (with_alarme n (record a { a_sonne = false; fin_snooze_ms = 0 }) e)

-- Whether the ringing of the alarm has just ceased without a demand.
unfoldable pub cesse : ℕ → ℕ → ℕ → Evenements → Bool
cesse lever sonne n e =
    not (sonne == n)
    && not (lever == n && not e.arret_demande)
    && rang (alarme n e).etat == 2
    && not e.arret_demande

-- The end of `presumer_snooze`, with the minutes of the snooze.
unfoldable pub snooze_presume : ℕ → ℕ → ℕ → Evenements → Evenements
unfolding changer_alarme
snooze_presume now numero minutes e = changer_alarme numero reveil_snooze (
    with_alarme numero
      (record (alarme numero e) { fin_snooze_ms = now + minutes * 60000 + snooze_margin_ms }) e)

-- The duration in `presumer_snooze`: the longest if it could not be read.
unfoldable pub minutes_of : Code → Option ControlAlarm → ℕ
minutes_of ok (some a) =
    if ltb a.snooze (length snooze_minutes) then get_or snooze_minutes a.snooze 30 else 30
minutes_of _ _ = 30

-- The end of `suivre_reveil`, behind its loop.
unfoldable pub suivi_fini : Evenements → Evenements
unfolding diffuser_reveil
suivi_fini e = diffuser_reveil (
    if rang e.alarme_1.etat == 0 && rang e.alarme_2.etat == 0
    then record e { surveiller = false; arret_demande = false }
    else e)
