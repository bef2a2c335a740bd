-- ===== src/Events/Watch.antt =====
-- An alarm in progress is watched (src/app/handlers.c).
use sweet_dawn.Base.{
  ◌≤◌, ◌≡◌, ◌≢◌, ℕ, ◌==◌, ◌||◌, ◌&&◌, ltb, leb, if_intro, if◌then◌else◌, get_or, List, [], ◌∷◌,
  true, false, refl, ap, ◌∙◌, arith, length, length-append,
}
use sweet_dawn.Protocol.{Bytes}
use sweet_dawn.Events.{
  Diffusion, timer_ended, surveillee, diffuser, alarme, with_alarme, rang, Evenements, SuiviAlarme,
  EtatReveil, reveil_repos, reveil_lever, reveil_sonne, reveil_snooze, event_queue_size,
  handlers_on_event, changer_alarme, traiter_message, traiter_file, traiter_notes, diffuser_reveil,
}

-- While an alarm is in progress its state is read again and again, and the queue is within bounds.
pub record IsWatched (e : Evenements) : Type 0 where
  pub first : e.alarme_1.etat ≢ reveil_repos → e.surveiller ≡ true
  pub second : e.alarme_2.etat ≢ reveil_repos → e.surveiller ≡ true
  pub queued : length e.file ≤ event_queue_size

-- Noting an unsolicited message keeps the invariant that an alarm in progress is watched and that
-- the queue holds at most sixteen messages.
pub on_event-IsWatched :
    (e : Evenements) (code : ℕ) (bytes : Bytes)
    → IsWatched e
    → IsWatched (handlers_on_event e code bytes)
unfolding handlers_on_event
on_event-IsWatched e code bytes v =
    if_intro IsWatched (code == 0xCA)
      (λ _. record { first = v.first; second = v.second; queued = v.queued })
      (λ _.
        if_intro IsWatched (ltb (length e.file) event_queue_size)
          (λ room. record {
            first = v.first;
            second = v.second;
            queued = ground (arith, length-append e.file ((code, get_or bytes 0 0) ∷ []));
          })
          (λ _. v))

surveillee-IsWatched :
    (now : ℕ) (e : Evenements) → length e.file ≤ event_queue_size → IsWatched (surveillee now e)
surveillee-IsWatched now e h = record { first = λ _. refl; second = λ _. refl; queued = h }

diffuser-IsWatched : (d : Diffusion) (e : Evenements) → IsWatched e → IsWatched (diffuser d e)
diffuser-IsWatched d e v = record { first = v.first; second = v.second; queued = v.queued }

lit-IsWatched : (e : Evenements) → IsWatched e → IsWatched (record e { eclairage_change = true })
lit-IsWatched e v = record { first = v.first; second = v.second; queued = v.queued }

-- The queue of a changed alarm.
changer_file :
    (n : ℕ) (etat : EtatReveil) (a : SuiviAlarme) (e : Evenements)
    → (changer_alarme n etat (with_alarme n a e)).file ≡ e.file
unfolding changer_alarme
changer_file n etat a e = ground arith

message-IsWatched :
    (now code value : ℕ) (e : Evenements)
    → IsWatched e
    → IsWatched (traiter_message now code value e)
unfolding traiter_message
message-IsWatched now code value e v =
    let known = leb 1 value && leb value 2 in
    let a = alarme value e in
    if_intro IsWatched (code == 0xC6)
      (λ _.
        if_intro (λ x. IsWatched (surveillee now x)) known
          (λ _.
            surveillee-IsWatched now
              (changer_alarme value reveil_lever
                (with_alarme value (record a { a_sonne = false }) e))
              (rw (changer_file value reveil_lever (record a { a_sonne = false }) e) v.queued))
          (λ _. surveillee-IsWatched now e v.queued))
      (λ _.
        if_intro IsWatched (code == 0xC7)
          (λ _.
            if_intro (λ x. IsWatched (surveillee now x)) known
              (λ _.
                surveillee-IsWatched now
                  (changer_alarme value reveil_sonne
                    (with_alarme value (record a { a_sonne = true; fin_snooze_ms = 0 }) e))
                  (rw
                    (changer_file value reveil_sonne
                      (record a { a_sonne = true; fin_snooze_ms = 0 }) e)
                    v.queued))
              (λ _. surveillee-IsWatched now e v.queued))
          (λ _.
            if_intro IsWatched (code == 0xEB || code == 0xEC)
              (λ _.
                diffuser-IsWatched (timer_ended code) (record e { eclairage_change = true })
                  (lit-IsWatched e v))
              (λ _.
                if_intro IsWatched (code == 0xED || code == 0xEE)
                  (λ _. diffuser-IsWatched (timer_ended code) e v) (λ _. v))))

file-IsWatched :
    (now : ℕ) (file : List (ℕ × ℕ)) (e : Evenements)
    → IsWatched e
    → IsWatched (traiter_file now file e)
unfolding traiter_file
file-IsWatched now [] e v = v
file-IsWatched now ((code, value) ∷ rest) e v =
    file-IsWatched now rest (traiter_message now code value e)
      (message-IsWatched now code value e v)

reveil-IsWatched : (e : Evenements) → IsWatched e → IsWatched (diffuser_reveil e)
unfolding diffuser_reveil
reveil-IsWatched e v =
    if_intro IsWatched e.reveil_change
      (λ _. record { first = v.first; second = v.second; queued = v.queued }) (λ _. v)

-- The state that a message announces for alarm `n`, whose state was `etat`.
pub annonce_de : ℕ → ℕ → ℕ → EtatReveil → EtatReveil
annonce_de n code value etat =
    if value == n && code == 0xC6
    then reveil_lever
    else if value == n && code == 0xC7
    then reveil_sonne
    else etat

-- What the messages announce for alarm `n`, the last one about it counting.
pub annonce : ℕ → List (ℕ × ℕ) → EtatReveil → EtatReveil
annonce n [] etat = etat
annonce n ((code, value) ∷ rest) etat = annonce n rest (annonce_de n code value etat)

rang-eq : (x y : EtatReveil) → (rang x == rang y) ≡ true → x ≡ y
rang-eq reveil_repos y h = ground arith
rang-eq reveil_lever y h = ground arith
rang-eq reveil_sonne y h = ground arith
rang-eq reveil_snooze y h = ground arith

changed :
    (n : ℕ) (etat : EtatReveil) (a : SuiviAlarme) (e : Evenements)
    → 1 ≤ n
    → n ≤ 2
    → a.etat ≡ (alarme n e).etat
    → (n ≡ 1 → (changer_alarme n etat (with_alarme n a e)).alarme_1.etat ≡ etat)
      × (n ≡ 2 → (changer_alarme n etat (with_alarme n a e)).alarme_1.etat ≡ e.alarme_1.etat)
      × (n ≡ 2 → (changer_alarme n etat (with_alarme n a e)).alarme_2.etat ≡ etat)
      × (n ≡ 1 → (changer_alarme n etat (with_alarme n a e)).alarme_2.etat ≡ e.alarme_2.etat)
unfolding changer_alarme
changed n etat a e h k same = ground (arith, rang-eq a.etat etat)

message-annonce :
    (now code value : ℕ) (e : Evenements)
    → ((traiter_message now code value e).alarme_1.etat ≡ annonce_de 1 code value e.alarme_1.etat)
      × ((traiter_message now code value e).alarme_2.etat ≡ annonce_de 2 code value e.alarme_2.etat)
unfolding traiter_message annonce_de
message-annonce now code value e =
    let a = alarme value e in
    ground (
      arith,
      changed value reveil_lever (record a { a_sonne = false }) e,
      changed value reveil_sonne (record a { a_sonne = true; fin_snooze_ms = 0 }) e,
    )

file-annonce :
    (now : ℕ) (file : List (ℕ × ℕ)) (e : Evenements)
    → ((traiter_file now file e).alarme_1.etat ≡ annonce 1 file e.alarme_1.etat)
      × ((traiter_file now file e).alarme_2.etat ≡ annonce 2 file e.alarme_2.etat)
unfolding traiter_file annonce
file-annonce now [] e = (refl, refl)
file-annonce now ((code, value) ∷ rest) e =
    let e' = traiter_message now code value e in
    let (first, second) = message-annonce now code value e in
    let (later_1, later_2) = file-annonce now rest e' in
    (later_1 ∙ ap (annonce 1 rest) first, later_2 ∙ ap (annonce 2 rest) second)

reveil_etats :
    (e : Evenements)
    → ((diffuser_reveil e).alarme_1.etat ≡ e.alarme_1.etat)
      × ((diffuser_reveil e).alarme_2.etat ≡ e.alarme_2.etat)
      × ((diffuser_reveil e).file ≡ e.file)
unfolding diffuser_reveil
reveil_etats e = ground arith

-- Treating the noted messages leaves each of the two alarms in the state that the last message
-- about it announces, sunrise or ringing, or as it was if there is none, whatever the messages
-- about the other one, and empties the queue.
pub notes-annonce :
    (now : ℕ) (e : Evenements)
    → ((traiter_notes now e).alarme_1.etat ≡ annonce 1 e.file e.alarme_1.etat)
      × ((traiter_notes now e).alarme_2.etat ≡ annonce 2 e.file e.alarme_2.etat)
      × ((traiter_notes now e).file ≡ [])
unfolding traiter_notes
notes-annonce now e =
    let (first, second) = file-annonce now e.file e in
    let (one, two, queue) = reveil_etats (record (traiter_file now e.file e) { file = [] }) in
    (one ∙ first, two ∙ second, queue)

-- Treating the noted messages keeps the invariant that an alarm in progress is watched and that
-- the queue is within its bounds.
pub notes-IsWatched : (now : ℕ) (e : Evenements) → IsWatched e → IsWatched (traiter_notes now e)
unfolding traiter_notes
notes-IsWatched now e v =
    let w = file-IsWatched now e.file e v in
    reveil-IsWatched (record (traiter_file now e.file e) { file = [] })
      (record { first = w.first; second = w.second; queued = omega arith })
