-- ===== src/Tests/Noted.antt =====
-- Events: theorems of Events at concrete messages.
use sweet_dawn.Base.{◌≡◌, true, false, [], ◌∷◌}
use sweet_dawn.Events.{Evenements, reveil_repos, reveil_lever, traiter_notes}
use sweet_dawn.Events.Watch.{annonce, notes-annonce}

-- The second alarm has begun its sunrise, and the first one rings.
abbrev noted : Evenements
noted = record {
  file = (0xC7, 1) ∷ (0xED, 0) ∷ [];
  eclairage_change = false;
  alarme_1 = record { etat = reveil_repos; a_sonne = false; fin_snooze_ms = 0 };
  alarme_2 = record { etat = reveil_lever; a_sonne = false; fin_snooze_ms = 0 };
  reveil_change = false;
  surveiller = true;
  prochaine_lecture_ms = 500;
  arret_demande = false;
  connexions = 0;
  diffusions = [];
}

notes-annonce_example :
    ((traiter_notes 100 noted).alarme_1.etat ≡ annonce 1 noted.file reveil_repos)
    × ((traiter_notes 100 noted).alarme_2.etat ≡ annonce 2 noted.file reveil_lever)
    × ((traiter_notes 100 noted).file ≡ [])
notes-annonce_example = notes-annonce 100 noted
