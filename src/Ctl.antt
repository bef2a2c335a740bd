-- ===== src/Ctl.antt =====
-- The command line client (src/app/ctl.c): the connection to the service, a request and its response, and the events.
-- The system is a parameter, and so are
-- json_tokener_parse(), json_object_get_boolean(), whether a result is an empty object, and its text; what is printed is a value. `none` is out of
-- fuel in a loop.
pub mod Whole
pub mod Stream
pub mod Asked
use sweet_dawn.Base.{
  ℕ, zero, suc, ◌+◌, ◌-◌, ◌≤◌, ◌≡◌, Bool, true, false, not, ◌&&◌, ◌||◌, Option, none, some, List,
  [], ◌∷◌, ◌++◌, String, same, ltb, leb, ◌==◌, if◌then◌else◌, length, take, drop,
}
use Prim.Native.Char.{code}
use sweet_dawn.Os.{
  Errno, eintr, Received, recv_failed, recv_closed, recv_bytes, Sent, send_failed, sent,
}
use sweet_dawn.Protocol.{Bytes}
use sweet_dawn.Json.{JsonLib}
use sweet_dawn.Ipc.{find_newline, max_message}

pub record Net : Type 1 where
  pub World : Type 0
  -- socket(AF_UNIX, SOCK_STREAM, 0)
  pub socket : World → Option ℕ × World
  -- Whether connect() returned 0.
  pub connect : ℕ → String → World → Bool × World
  pub close : ℕ → World → World
  -- setsockopt(SO_RCVTIMEO), in seconds.
  pub receive_timeout : ℕ → ℕ → World → World
  pub send : ℕ → Bytes → World → Sent × World
  pub recv : ℕ → ℕ → World → Received × World

-- `CTL_TIMEOUT_S`, and the size of the two buffers.
abbrev pub ctl_timeout_s : ℕ
ctl_timeout_s = 20

abbrev pub buffer_size : ℕ
buffer_size = 262144

abbrev bytes_of : String → Bytes
bytes_of String.[] = []
bytes_of (String.◌∷◌ c s) = code c ∷ bytes_of s

-- `subscribe` of `suivre_evenements`
abbrev pub subscribe : Bytes
subscribe =
    bytes_of "{\"type\":\"request\",\"id\":1,\"command\":\"subscribe\",\"args\":[]}" ++ (0x0A ∷ [])

-- What is printed last.
pub data Sortie : Type 0 where
  usage injoignable abonnement_impossible connexion_perdue message_trop_long : Sortie
  commande_trop_longue pas_de_reponse illisible fait : Sortie
  affiche : Bytes → Sortie
  erreur : String → String → Sortie

-- What a loop does behind recv() or send(): once more, or the end.
unfoldable pub after_send : Sent → Option ℕ
after_send (send_failed eintr) = some 0
after_send (send_failed _) = none
after_send (sent zero) = none
after_send (sent (suc n)) = some (suc n)

unfoldable pub after_recv : Received → Option Bytes
after_recv recv_closed = none
after_recv (recv_failed eintr) = some []
after_recv (recv_failed _) = none
after_recv (recv_bytes []) = none
after_recv (recv_bytes (b ∷ bs)) = some (b ∷ bs)

module _ (net : Net) where
  open net use {World}

  -- `connecter`; none is -1.
  unfoldable pub connecter : String → World → Option ℕ × World
  connecter path w =
      let (r, w₁) = net.socket w in
      elim r [
        | none ↦ (none, w₁)
        | some fd ↦
            let (done, w₂) = net.connect fd path w₁ in
            if not done
            then (none, net.close fd w₂)
            else (some fd, net.receive_timeout fd ctl_timeout_s w₂)
      ]

  -- `envoyer_tout`: whether it returned 0; the bytes are those that are still to be sent.
  unfoldable pub envoyer_tout : ℕ → ℕ → Bytes → World → Option (Bool × World)
  unfolding after_send
  envoyer_tout fuel fd [] w = some (true, w)
  envoyer_tout zero fd (b ∷ bs) w = none
  envoyer_tout (suc fuel) fd (b ∷ bs) w =
      let (r, w') = net.send fd (b ∷ bs) w in
      elim (after_send r) [
        | none ↦ some (false, w')
        | some n ↦ envoyer_tout fuel fd (drop n (b ∷ bs)) w'
      ]

  -- Behind recv() in `lire_ligne`; `again` is the rest of the loop.
  unfoldable pub ligne_lue :
      (Bytes → World → Option (Option Bytes × World))
      → Bytes
      → Option Bytes
      → World
      → Option (Option Bytes × World)
  ligne_lue again buffer none w = some (none, w)
  ligne_lue again buffer (some []) w = again buffer w
  ligne_lue again buffer (some (b ∷ bs)) w =
      let all = buffer ++ (b ∷ bs) in
      elim (find_newline all) [ none ↦ again all w | some n ↦ some (some (take n all), w) ]

  -- `lire_ligne`; the inner none is -1.
  unfoldable pub lire_ligne : ℕ → ℕ → Bytes → World → Option (Option Bytes × World)
  unfolding ligne_lue after_recv find_newline
  lire_ligne zero fd buffer w = none
  lire_ligne (suc fuel) fd buffer w =
      if leb buffer_size (length buffer + 1)
      then some (none, w)
      else let (r, w') = net.recv fd (buffer_size - 1 - length buffer) w in
        ligne_lue (lire_ligne fuel fd) buffer (after_recv r) w'

  -- The inner loop of `suivre_evenements`: the complete lines of a buffer, and what is behind them.
  unfoldable pub couper : ℕ → Bytes → List Bytes × Bytes
  unfolding find_newline
  couper zero buffer = ([], buffer)
  couper (suc fuel) buffer =
      let rest = couper fuel in
      elim (find_newline buffer) [
        | none ↦ ([], buffer)
        | some n ↦
            let (lines, partial) = rest (drop (n + 1) buffer) in (take n buffer ∷ lines, partial)
      ]

  -- Behind recv() in `suivre_evenements`: the lines that were treated, in their order, and the end.
  unfoldable pub lignes_recues :
      (List Bytes → Bytes → World → Option (List Bytes × Sortie × World))
      → List Bytes
      → Bytes
      → Option Bytes
      → World
      → Option (List Bytes × Sortie × World)
  unfolding couper
  lignes_recues again treated buffer none w = some (treated, connexion_perdue, w)
  lignes_recues again treated buffer (some []) w = again treated buffer w
  lignes_recues again treated buffer (some (b ∷ bs)) w =
      let all = buffer ++ (b ∷ bs) in
      let (lines, partial) = couper (length all) all in
      if leb (buffer_size - 1) (length partial)
      then some (treated ++ lines, message_trop_long, w)
      else again (treated ++ lines) partial w

  -- The loop of `suivre_evenements`.
  unfoldable pub suivre : ℕ → ℕ → List Bytes → Bytes → World → Option (List Bytes × Sortie × World)
  unfolding lignes_recues after_recv
  suivre zero fd treated buffer w = none
  suivre (suc fuel) fd treated buffer w =
      let (r, w') = net.recv fd (buffer_size - 1 - length buffer) w in
      lignes_recues (suivre fuel fd) treated buffer (after_recv r) w'

  -- `suivre_evenements`
  unfoldable pub suivre_evenements : ℕ → ℕ → World → Option (List Bytes × Sortie × World)
  unfolding envoyer_tout suivre
  suivre_evenements fuel fd w = elim (envoyer_tout fuel fd subscribe w) [
    | none ↦ none
    | some (done, w') ↦
        if not done
        then some ([], abonnement_impossible, w')
        else suivre fuel fd [] [] (net.receive_timeout fd 0 w')
  ]

module _ (json : JsonLib) (parse : Bytes → Option json.Value)
    (get_boolean is_empty : json.Value → Bool) (pretty : json.Value → Bytes) where
  open json use {Value}

  -- The request of `main`, with the command and the value if there is one.
  unfoldable pub requete : String → Option String → Value
  requete command value = json.new_object (
      ("type", json.new_string "request")
      ∷ ("id", json.new_int 1)
      ∷ ("command", json.new_string command)
      ∷ ("args", json.new_array (elim value [ none ↦ [] | some v ↦ json.new_string v ∷ [] ]))
      ∷ [])

  -- The line that is sent; none is too long a command.
  unfoldable pub message_of : Value → Option Bytes
  message_of request = elim (json.to_json_string request) [
    | none ↦ none
    | some text ↦
        if leb (max_message + 2) (length text + 1) then none else some (text ++ (0x0A ∷ []))
  ]

  abbrev text_or : Option Value → String → String
  text_or none s = s
  text_or (some v) s = json.get_string v

  abbrev member_of : Option Value → String → Option Value
  member_of none key = none
  member_of (some v) key = json.get_ex v key

  -- What the response says, and the exit code.
  unfoldable pub reponse_affichee : Bytes → Sortie × ℕ
  reponse_affichee line = elim (parse line) [
    | none ↦ (illisible, 1)
    | some response ↦ elim (json.get_ex response "ok") [
      | none ↦ (illisible, 1)
      | some ok ↦
          if get_boolean ok
          then (
            elim (json.get_ex response "result") [
              | none ↦ fait
              | some result ↦ if is_empty result then fait else affiche (pretty result)
            ],
            0,
          )
          else (
            erreur (text_or (member_of (json.get_ex response "error") "code") "?")
                (text_or (member_of (json.get_ex response "error") "message") ""),
            1,
          )
    ]
  ]

  module _ (net : Net) where
    open net use {World}

    -- `main` once the request is sent, or not.
    unfoldable pub demande_envoyee : ℕ → ℕ → Option (Bool × World) → Option (Sortie × ℕ × World)
    unfolding lire_ligne reponse_affichee
    demande_envoyee fuel fd none = none
    demande_envoyee fuel fd (some (done, w)) =
        if not done
        then some (pas_de_reponse, 2, net.close fd w)
        else elim (lire_ligne net fuel fd [] w) [
          | none ↦ none
          | some (none, w') ↦ some (pas_de_reponse, 2, net.close fd w')
          | some (some line, w') ↦
              let (shown, code) = reponse_affichee line in some (shown, code, net.close fd w')
        ]

    -- `main` for a command, once its arguments are checked.
    unfoldable pub demander_service :
        ℕ → String → String → Option String → World → Option (Sortie × ℕ × World)
    unfolding demande_envoyee envoyer_tout connecter requete message_of
    demander_service fuel path command value w = elim (message_of (requete command value)) [
      | none ↦ some (commande_trop_longue, 2, w)
      | some message ↦
          let (r, w') = connecter net path w in
          elim r [
            | none ↦ some (injoignable, 2, w')
            | some fd ↦ demande_envoyee fuel fd (envoyer_tout net fuel fd message w')
          ]
    ]

    -- `main` for "events".
    unfoldable pub ecouter_service : ℕ → String → World → Option (List Bytes × Sortie × ℕ × World)
    unfolding suivre_evenements connecter
    ecouter_service fuel path w =
        let (r, w') = connecter net path w in
        elim r [
          | none ↦ some ([], injoignable, 2, w')
          | some fd ↦ elim (suivre_evenements net fuel fd w') [
            | none ↦ none
            | some (treated, why, w'') ↦ some (treated, why, 2, net.close fd w'')
          ]
        ]

    -- `main`, with the arguments behind the name of the program.
    unfoldable pub main : ℕ → List String → String → World → Option (Sortie × ℕ × World)
    unfolding demander_service ecouter_service
    main fuel [] path w = some (usage, 2, w)
    main fuel (command ∷ []) path w =
        if same command "-h" || same command "--help"
        then some (usage, 2, w)
        else if same command "events"
        then elim (ecouter_service fuel path w) [
          | none ↦ none
          | some (treated, why, code, w') ↦ some (why, code, w')
        ]
        else demander_service fuel path command none w
    main fuel (command ∷ value ∷ []) path w =
        if same command "-h" || same command "--help"
        then some (usage, 2, w)
        else demander_service fuel path command (some value) w
    main fuel (command ∷ value ∷ extra ∷ more) path w = some (usage, 2, w)
