-- ===== src/Command/Built.antt =====
-- That the tree of the AML005 (src/command/aml_commands.c) is one: every step of its construction keeps the tree.
use sweet_dawn.Base.{
  ℕ, zero, suc, ◌+◌, ◌≡◌, ◌⊎◌, inl, inr, refl, sym, ◌∙◌, ap, arith, subst, Option, none, some, List,
  [], ◌∷◌, ◌++◌, String, length, leb, some-eq, if_intro, option_intro,
}
use sweet_dawn.Command.{
  Command, CommandValueSpec, value_bool, value_integer, value_string, at, put, nom_correspond,
  command_init, command_set_value_spec, command_add_child,
}
use sweet_dawn.Command.Registry.{registry_init}
use sweet_dawn.Command.Tree.{
  In, ApartAt, Apart, Ends, over, up, IsTree, at-put, at-put_other, same_address,
}
use sweet_dawn.Command.Grow.{Grows, add_child-Grows}
use sweet_dawn.Command.Aml.{
  Build, ◌>>=◌, aml_command_capacity, creer_commande, attacher, ajouter_commande, definir,
  definir_booleen, definir_entier, definir_texte, definir_choix, ajouter_parametres_alarme,
  settings_commands, alarms_commands, light_commands, mood_commands, radio_commands,
  media_player_commands, all_commands, aml_commands_init, snooze_values, tone_values,
  display_brightness_values, display_time_values, time_mode_values, scene_values,
}

-- The fields of a command on which the tree depends.
record IsAlike (x y : Command) : Type 0 where
  pub parents : x.parent ≡ y.parent
  pub same_children : x.children ≡ y.children
  pub names : (name : String) → nom_correspond x name ≡ nom_correspond y name

IsAlike-refl : (x : Command) → IsAlike x x
IsAlike-refl x = record { parents = refl; same_children = refl; names = λ name. refl }

-- A table whose commands are alike those of a tree, but for new ones that stand alone, is a tree.
module _ (s t : List Command) (tree : IsTree s)
    (forth : (i : ℕ) (x : Command)
      → at s i ≡ some x
      → (y : Command) × (at t i ≡ some y) × IsAlike y x)
    (back : (i : ℕ) (x : Command)
      → at t i ≡ some x
      → ((x.parent ≡ none) × (x.children ≡ []))
        ⊎ ((y : Command) × (at s i ≡ some y) × IsAlike x y)) where
  Apart-kept :
      (l : List ℕ) → ((k : ℕ) → In k l → (d : Command) × (at s k ≡ some d)) → Apart s l → Apart t l
  Apart-kept [] sub v = tt
  Apart-kept (j ∷ js) sub (h, v) = (λ k m. pair k m, Apart-kept js (λ k m. sub k (inr m)) v)
    where
      pair : (k : ℕ) → In k js → ApartAt t j k
      pair k m a b e f name n =
          let (x, ex) = sub j (inl refl) in
          let (y, ey) = sub k (inr m) in
          let (x', ex', ax) = forth j x ex in
          let (y', ey', ay) = forth k y ey in
          let vx = some-eq a x' (sym e ∙ ex') in
          let vy = some-eq b y' (sym f ∙ ey') in
          ap (λ z. nom_correspond z name) vy
          ∙ ay.names name
          ∙ h k m x y ex ey name
              (sym (ax.names name) ∙ ap (λ z. nom_correspond z name) (sym vx) ∙ n)

  Ends-kept : (o : Option ℕ) → Ends s o → Ends t o
  Ends-kept o over = over
  Ends-kept o (up a x e r) =
      let (y, f, v) = forth a x e in
      up a y f (subst (Ends t) (sym v.parents) (Ends-kept x.parent r))

  alike-IsTree : IsTree t
  alike-IsTree = record { linked = linked'; distinct = distinct'; ends = ends' }
    where
      linked' :
          (q : ℕ) (x : Command)
          → at t q ≡ some x
          → (j : ℕ) → In j x.children
          → (d : Command) × (at t j ≡ some d) × (d.parent ≡ some q)
      linked' q x e j m = elim (back q x e) [
        | inl (p, c) ↦ absurd (let m' = subst (In j) c m in ground arith)
        | inr (y, f, v) ↦
            let (d, g, l) = tree.linked q y f j (subst (In j) v.same_children m) in
            let (d', g', v') = forth j d g in (d', g', v'.parents ∙ l)
      ]

      distinct' : (q : ℕ) (x : Command) → at t q ≡ some x → Apart t x.children
      distinct' q x e = elim (back q x e) [
        | inl (p, c) ↦ subst (Apart t) (sym c) tt
        | inr (y, f, v) ↦ subst (Apart t) (sym v.same_children) (
            Apart-kept y.children (λ k m. let (d, g, l) = tree.linked q y f k m in (d, g))
              (tree.distinct q y f))
      ]

      ends' : (i : ℕ) (x : Command) → at t i ≡ some x → Ends t (some i)
      ends' i x e = elim (back i x e) [
        | inl (p, c) ↦ up i x e (subst (Ends t) (sym p) over)
        | inr (y, f, v) ↦ Ends-kept (some i) (tree.ends i y f)
      ]

at-append :
    (s : List Command) (x : Command) (i : ℕ) (y : Command)
    → at s i ≡ some y
    → at (s ++ (x ∷ [])) i ≡ some y
at-append [] x i y h = absurd (ground arith)
at-append (z ∷ s) x zero y h = h
at-append (z ∷ s) x (suc i) y h = at-append s x i y h

at-append_cases :
    (s : List Command) (x : Command) (i : ℕ) (y : Command)
    → at (s ++ (x ∷ [])) i ≡ some y
    → (y ≡ x) ⊎ (at s i ≡ some y)
at-append_cases [] x zero y h = inl (some-eq y x (sym h))
at-append_cases [] x (suc i) y h = absurd (ground arith)
at-append_cases (z ∷ s) x zero y h = inr h
at-append_cases (z ∷ s) x (suc i) y h = at-append_cases s x i y h

append-IsTree :
    (s : List Command) (x : Command)
    → x.parent ≡ none
    → x.children ≡ []
    → IsTree s
    → IsTree (s ++ (x ∷ []))
append-IsTree s x p c v =
    alike-IsTree s (s ++ (x ∷ [])) v (λ i y e. (y, at-append s x i y e, IsAlike-refl y))
      (λ i y e. elim (at-append_cases s x i y e) [
        | inl m ↦
            inl (subst (λ (z : Command). (z.parent ≡ none) × (z.children ≡ [])) (sym m) (p, c))
        | inr m ↦ inr (y, m, IsAlike-refl y)
      ])

put-IsTree :
    (s : List Command) (i : ℕ) (x y : Command)
    → at s i ≡ some x
    → IsAlike y x
    → IsTree s
    → IsTree (put s i y)
put-IsTree s i x y e v tree =
    alike-IsTree s (put s i y) tree
      (λ j z f. elim (same_address j i) [
        | inl m ↦ (
          y,
          ap (at (put s i y)) m ∙ at-put s i x y e,
          subst (IsAlike y) (some-eq x z (sym e ∙ ap (at s) (sym m) ∙ f)) v,
        )
        | inr m ↦ (z, at-put_other s i j y m ∙ f, IsAlike-refl z)
      ])
      (λ j z f. elim (same_address j i) [
        | inl m ↦ inr (
          x,
          ap (at s) m ∙ e,
          subst (λ w. IsAlike w x)
              (some-eq y z (sym (at-put s i x y e) ∙ ap (at (put s i y)) (sym m) ∙ f)) v,
        )
        | inr m ↦ inr (z, sym (at-put_other s i j y m) ∙ f, IsAlike-refl z)
      ])

abbrev Left : {A : Type 0} → Option (A × List Command) → Type 0
Left none = Unit
Left (some (a, s)) = IsTree s

-- A step that keeps the tree.
record Keeps {A : Type 0} (m : Build A) : Type 0 where
  pub kept : (s : List Command) → IsTree s → Left (m s)

bind :
    {A B : Type 0} {m : Build A} {f : A → Build B}
    → Keeps m
    → ((a : A) → Keeps (f a))
    → Keeps (m >>= f)
bind {m = m} k l = record {
  kept = λ s v.
      option_intro Left (m s) (λ _. tt) (λ r e. (l r.0).kept r.1 (subst Left e (k.kept s v)));
}

init_alone :
    (name description : String) (c : Command)
    → command_init name description ≡ some c
    → (c.parent ≡ none) × (c.children ≡ [])
unfolding command_init
init_alone name description c h = (ground arith, ground arith)

created : (name description : String) → Keeps (creer_commande name description)
unfolding creer_commande
created name description = record {
  kept = λ s v.
      if_intro Left (leb (aml_command_capacity + 1) (length s)) (λ _. tt)
        (λ _.
          option_intro Left (command_init name description) (λ _. tt)
            (λ c h. let (p, d) = init_alone name description c h in append-IsTree s c p d v));
}

attached : (parent command : ℕ) → Keeps (attacher parent command)
unfolding attacher
attached parent command = record {
  kept = λ s v.
      after (command_add_child (length s) s parent command)
        (add_child-Grows (length s) s parent command v);
}
  where
    after :
        (r : Option (Option (List Command)))
        → Grows r
        → Left (elim r [ none ↦ none | some none ↦ none | some (some s') ↦ some (command, s') ])
    after none g = tt
    after (some none) g = tt
    after (some (some s')) g = g

added : (parent : ℕ) (name description : String) → Keeps (ajouter_commande parent name description)
unfolding ajouter_commande
added parent name description = bind (created name description) (attached parent)

spec-IsAlike :
    (x : Command) (spec : CommandValueSpec) (c : Command)
    → command_set_value_spec x spec ≡ some c
    → IsAlike c x
unfolding command_set_value_spec nom_correspond
spec-IsAlike x spec c h =
    let e : c ≡ record x { value_spec = spec } = ground arith in
    subst (λ z. IsAlike z x) (sym e)
      (record { parents = refl; same_children = refl; names = λ name. refl })

specified : (i : ℕ) (spec : CommandValueSpec) → Keeps (definir i spec)
unfolding definir
specified i spec = record {
  kept = λ s v.
      option_intro Left (at s i) (λ _. tt)
        (λ x e.
          option_intro Left (command_set_value_spec x spec) (λ _. tt)
            (λ c h. put-IsTree s i x c e (spec-IsAlike x spec c h) v));
}

booleen : (i : ℕ) → Keeps (definir_booleen i)
unfolding definir_booleen
booleen i = specified i (record { type = value_bool; range = none; choices = [] })

entier : (i a b : ℕ) → Keeps (definir_entier i a b)
unfolding definir_entier
entier i a b = specified i (record { type = value_integer; range = some (a, b); choices = [] })

texte : (i : ℕ) → Keeps (definir_texte i)
unfolding definir_texte
texte i = specified i (record { type = value_string; range = none; choices = [] })

choix : (i : ℕ) (choices : List String) → Keeps (definir_choix i choices)
unfolding definir_choix
choix i choices = specified i (record { type = value_string; range = none; choices = choices })

alarme-Keeps : (alarme : ℕ) → Keeps (ajouter_parametres_alarme alarme)
unfolding ajouter_parametres_alarme
alarme-Keeps alarme = bind (added alarme "Enable" "Activer ou désactiver l'alarme") (λ command.
    bind (booleen command) (λ _.
      bind (added alarme "Time" "Heure de l'alarme au format HH:MM") (λ command.
        bind (texte command) (λ _.
          bind (added alarme "Days" "Jours actifs sous forme de masque binaire") (λ command.
            bind (entier command 0 127) (λ _.
              bind (added alarme "Snooze" "Durée de répétition en minutes") (λ command.
                bind (choix command snooze_values) (λ _.
                  bind (added alarme "Tone" "Son de l'alarme") (λ command.
                    bind (choix command tone_values) (λ _.
                      bind (added alarme "Tone volume" "Volume du son de l'alarme") (λ command.
                        bind (entier command 1 10) (λ _.
                          bind (added alarme "Sunrise" "Activer ou désactiver le lever de soleil")
                            (λ command. bind (booleen command) (λ _.
                              bind
                                (added alarme "Sunrise duration"
                                  "Durée du lever de soleil en minutes")
                                (λ command. bind (entier command 2 60) (λ _.
                                  bind
                                    (added alarme "Sunrise brightness"
                                      "Luminosité maximale du lever de soleil")
                                    (λ command. (entier command 1 100))))))))))))))))))

settings-Keeps : (root : ℕ) → Keeps (settings_commands root)
unfolding settings_commands
settings-Keeps root = bind (added root "Settings" "Consulter les paramètres de l'AML") (λ group.
    bind (added group "Display brightness" "Luminosité de l'affichage") (λ command.
      bind (choix command display_brightness_values) (λ _.
        bind (added group "Display time" "Format horaire de l'affichage") (λ command.
          bind (choix command display_time_values) (λ _.
            bind (added group "Time" "Mode de gestion de l'heure") (λ command.
              bind (choix command time_mode_values) (λ _.
                bind (added group "Feedback" "Activer ou désactiver le retour sonore") (λ command.
                  bind (booleen command) (λ _.
                    bind (added group "Fade" "Activer ou désactiver le fondu lumineux") (λ command.
                      bind (booleen command) (λ _.
                        bind (added group "Sync time" "Mettre l'AML à l'heure du système") (λ _.
                          bind (added group "Set time" "Régler l'heure de l'AML")
                            (λ command. (texte command))))))))))))))

alarms-Keeps : (root : ℕ) → Keeps (alarms_commands root)
unfolding alarms_commands
alarms-Keeps root = bind (added root "Alarm" "Gérer les alarmes") (λ group.
    bind (added group "1" "Consulter ou modifier l'alarme 1") (λ alarme1.
      bind (alarme-Keeps alarme1) (λ _.
        bind (added group "2" "Consulter ou modifier l'alarme 2") (λ alarme2.
          bind (alarme-Keeps alarme2) (λ _.
            bind (added group "Stop" "Arrêter l'alarme qui sonne")
              (λ _. (added group "Snooze" "Répéter l'alarme qui sonne plus tard")))))))

light-Keeps : (root : ℕ) → Keeps (light_commands root)
unfolding light_commands
light-Keeps root = bind (added root "Light" "Consulter ou modifier l'éclairage") (λ group.
    bind (added group "Enable" "Activer ou désactiver l'éclairage") (λ command.
      bind (booleen command) (λ _.
        bind (added group "Brightness" "Luminosité de l'éclairage") (λ command.
          bind (entier command 0 100) (λ _.
            bind (added group "Sunset" "Activer ou désactiver le coucher de soleil") (λ command.
              bind (booleen command) (λ _.
                bind (added group "Sunset duration" "Durée du coucher de soleil en minutes")
                  (λ command. (entier command 1 60)))))))))

mood-Keeps : (root : ℕ) → Keeps (mood_commands root)
unfolding mood_commands
mood-Keeps root = bind (added root "Mood" "Consulter ou modifier l'éclairage d'ambiance") (λ group.
    bind (added group "Enable" "Activer ou désactiver le mode Mood") (λ command.
      bind (booleen command) (λ _.
        bind (added group "Color" "Couleur RGB de l'éclairage d'ambiance") (λ command.
          bind (texte command) (λ _.
            bind (added group "Brightness" "Luminosité du mode Mood") (λ command.
              bind (entier command 0 100) (λ _.
                bind (added group "Timer" "Activer ou désactiver le minuteur Mood") (λ command.
                  bind (booleen command) (λ _.
                    bind (added group "Timer duration" "Durée du minuteur en minutes") (λ command.
                      bind (entier command 1 120) (λ _.
                        bind (added group "Scene" "Scène lumineuse")
                          (λ command. (choix command scene_values)))))))))))))

radio-Keeps : (root : ℕ) → Keeps (radio_commands root)
unfolding radio_commands
radio-Keeps root = bind (added root "Radio" "Consulter ou modifier la radio") (λ group.
    bind (added group "Enable" "Activer ou désactiver la radio") (λ command.
      bind (booleen command) (λ _.
        bind (added group "<<" "Sélectionner la station détectée précédente") (λ _.
          bind (added group "<" "Diminuer la fréquence de 0,1 MHz") (λ _.
            bind (added group ">" "Augmenter la fréquence de 0,1 MHz") (λ _.
              bind (added group ">>" "Sélectionner la station détectée suivante") (λ _.
                bind (added group "Channel" "Sélectionner un canal radio") (λ command.
                  bind (entier command 1 10) (λ _.
                    bind (added group "Volume" "Volume de la radio") (λ command.
                      bind (entier command 1 10) (λ _.
                        bind (added group "Sleep timer" "Activer ou désactiver l'arrêt programmé")
                          (λ command. bind (booleen command) (λ _.
                            bind (added group "Timer duration" "Durée avant l'arrêt en minutes")
                              (λ command. (entier command 1 60)))))))))))))))

media_player-Keeps : (root : ℕ) → Keeps (media_player_commands root)
unfolding media_player_commands
media_player-Keeps root =
    bind (added root "Media Player" "Utiliser l'AML comme haut-parleur") (λ group.
      bind (added group "Enable" "Activer ou désactiver le haut-parleur Bluetooth")
        (λ command. (booleen command)))

all-Keeps : Keeps all_commands
unfolding all_commands
all-Keeps = bind (settings-Keeps 0) (λ _. bind (alarms-Keeps 0) (λ _.
    bind (light-Keeps 0)
      (λ _. bind (mood-Keeps 0) (λ _. bind (radio-Keeps 0) (λ _. media_player-Keeps 0)))))

no_commands-IsTree : IsTree []
no_commands-IsTree = record {
  linked = λ p c e. absurd (ground arith);
  distinct = λ p c e. absurd (ground arith);
  ends = λ i c e. absurd (ground arith);
}

-- The commands that aml_commands_init builds are a tree: each child knows its parent, no two
-- children of a command answer to the same name, and every chain of parents ends.
pub aml_commands-IsTree : (s : List Command) → aml_commands_init ≡ some (tt, s) → IsTree s
unfolding aml_commands_init
aml_commands-IsTree s h = subst Left h (
    option_intro Left registry_init (λ _. tt)
      (λ root e.
        let (p, c) = init_alone "AML" "Racine des commandes AML" root (unfold registry_init in e) in
        all-Keeps.kept (root ∷ []) (append-IsTree [] root p c no_commands-IsTree)))
