-- ===== src/Cli/Read.antt =====
-- What the diagnosis program (src/app/cli.c) leaves and reads.
use sweet_dawn.Base.{
  ℕ, ◌≤◌, length, ◌≡◌, refl, arith, true, not, Option, none, some, List, [], ◌∷◌, get_or, if_intro,
  option_intro,
}
use sweet_dawn.Os.{Os}
use sweet_dawn.State.{AmlState, state_init, state_update_settings}
use sweet_dawn.Protocol.{Bytes, max_frame_size, build_request}
use sweet_dawn.Protocol.Extract.{IsFrame}
use sweet_dawn.Transport.{Code, ok, AmlConfig, AmlConnection, aml_receive, aml_send, aml_disconnect}
use sweet_dawn.Transport.Receive.{IsCalm, Returns, receive-Returns}
use sweet_dawn.Connect.{aml_connect}
use sweet_dawn.Connect.Opened.{connect-IsOpened}
use sweet_dawn.Config.{Result, failed, loaded, config_select}
use sweet_dawn.Cli.{
  response_timeout_ms, is_statut, are_parametres, recue, envoyee, demander, termine,
  parametres_recus, statut_recu, connecte, diagnostic,
}

-- The settings in a frame.
abbrev pub settings_of : Bytes → AmlState
settings_of r = record {
  known = true;
  display = get_or r 8 0;
  date = get_or r 9 0;
  time = get_or r 10 0;
  feedback = get_or r 11 0;
  fade = get_or r 12 0;
}

module _ (os : Os) (fuel : ℕ) where
  open os use {World}

  -- A request that was built and sent whole, and the frame that was received behind it.
  pub record IsExchange (c : AmlConnection) (request : ℕ) (arguments : Bytes) (w : World)
      (response : Bytes) (c' : AmlConnection) (w' : World) : Type 0 where
    pub frame : Bytes
    pub built : build_request request arguments max_frame_size ≡ some frame
    pub between : World
    pub sent : aml_send os fuel c frame w ≡ some (ok, between)
    pub received :
        aml_receive os fuel c max_frame_size (some response_timeout_ms) between
        ≡ some (ok, response, c', w')
    pub sound : IsFrame response

  -- What the program read from a device: the frame that answers the request for the status, the frame that answers the
  -- request for the settings behind it, and in the latter the settings.
  pub record AreAnswers (devices : List AmlConfig) (name : Bytes) (w : World) (state : AmlState)
      : Type 0 where
    pub device : AmlConfig
    pub selected : config_select devices name ≡ some device
    pub opened : AmlConnection
    pub behind_connect : World
    pub connected : aml_connect os fuel device w ≡ some (ok, opened, behind_connect)
    pub status : Bytes
    pub between : AmlConnection
    pub behind_status : World
    pub status_read : IsExchange opened 0x00 (0x16 ∷ []) behind_connect status between behind_status
    pub status_code : get_or status 7 0 ≡ 0xF0
    pub settings : Bytes
    pub left : AmlConnection
    pub behind_settings : World
    pub settings_read : IsExchange between 0x12 [] behind_status settings left behind_settings
    pub settings_code : get_or settings 7 0 ≡ 0xE2
    pub settings_whole : 14 ≤ length settings
    pub read : state ≡ settings_of settings

  -- A response is the frame of an exchange, and the connection can go on.
  abbrev Answers :
      AmlConnection → ℕ → Bytes → World → Option (Option Bytes × AmlConnection × World) → Type 0
  Answers c request arguments w none = Unit
  Answers c request arguments w (some (none, c', w')) = Unit
  Answers c request arguments w (some (some r, c', w')) =
      IsExchange c request arguments w r c' w' × IsCalm c'

  recue-Answers :
      (c : AmlConnection) (request : ℕ) (arguments : Bytes) (w : World) (frame : Bytes)
      (between : World) (r : Option (Code × Bytes × AmlConnection × World))
      → build_request request arguments max_frame_size ≡ some frame
      → aml_send os fuel c frame w ≡ some (ok, between)
      → aml_receive os fuel c max_frame_size (some response_timeout_ms) between ≡ r
      → Returns c.socket_fd r
      → Answers c request arguments w (recue os r)
  unfolding recue
  recue-Answers c request arguments w frame between none b s e v = tt
  recue-Answers c request arguments w frame between (some (ok, r, c', w')) b s e v = (
    record {
      frame = frame;
      built = b;
      between = between;
      sent = s;
      received = e;
      sound = v.frame refl;
    },
    v.calm,
  )
  recue-Answers c request arguments w frame between (some (code, r, c', w')) b s e v = tt

  envoyee-Answers :
      (c : AmlConnection) (request : ℕ) (arguments : Bytes) (w : World) (frame : Bytes)
      (r : Option (Code × World))
      → build_request request arguments max_frame_size ≡ some frame
      → aml_send os fuel c frame w ≡ r
      → IsCalm c
      → Answers c request arguments w (envoyee os fuel c r)
  unfolding envoyee
  envoyee-Answers c request arguments w frame none b s v = tt
  envoyee-Answers c request arguments w frame (some (ok, between)) b s v =
      recue-Answers c request arguments w frame between _ b s refl (
        receive-Returns os fuel c max_frame_size (some response_timeout_ms) between (omega arith) v)
  envoyee-Answers c request arguments w frame (some (code, between)) b s v = tt

  demander-Answers :
      (c : AmlConnection) (request : ℕ) (arguments : Bytes) (w : World)
      → IsCalm c
      → Answers c request arguments w (demander os fuel c request arguments w)
  unfolding demander
  demander-Answers c request arguments w v =
      option_intro (Answers c request arguments w) (build_request request arguments max_frame_size)
        (λ _. tt) (λ b e. envoyee-Answers c request arguments w b (aml_send os fuel c b w) e refl v)

  -- The end of the program: the connection is closed, and with the code 0 something holds of the state.
  abbrev Ends : (AmlState → Type 0) → Option (ℕ × AmlState × AmlConnection × World) → Type 0
  Ends P none = Unit
  Ends P (some (code, state, c, w)) = (c.socket_fd ≡ none) × (code ≡ 0 → P state)

  closed_down : (c : AmlConnection) (w : World) → (aml_disconnect os c w).0.socket_fd ≡ none
  unfolding aml_disconnect
  closed_down c w =
      option_intro (λ (r : AmlConnection × World). r.0.socket_fd ≡ none) c.socket_fd (λ e. e)
        (λ _ _. refl)

  termine-Ends :
      (P : AmlState → Type 0) (code : ℕ) (state : AmlState) (c : AmlConnection) (w : World)
      → (code ≡ 0 → P state)
      → Ends P (termine os code state c w)
  unfolding termine
  termine-Ends P code state c w v = (closed_down c w, v)

  failed-Ends :
      (P : AmlState → Type 0) (c : AmlConnection) (w : World) → Ends P (termine os 1 state_init c w)
  failed-Ends P c w = termine-Ends P 1 state_init c w (λ e. absurd (ground arith))

  parametres-Ends :
      (P : AmlState → Type 0) (c : AmlConnection) (w : World)
      (r : Option (Option Bytes × AmlConnection × World))
      → Answers c 0x12 [] w r
      → ((settings : Bytes) (c' : AmlConnection) (w' : World)
          → IsExchange c 0x12 [] w settings c' w'
          → get_or settings 7 0 ≡ 0xE2
          → 14 ≤ length settings
          → P (settings_of settings))
      → Ends P (parametres_recus os r)
  unfolding parametres_recus are_parametres state_update_settings
  parametres-Ends P c w none v k = tt
  parametres-Ends P c w (some (none, c', w')) v k = failed-Ends P c' w'
  parametres-Ends P c w (some (some r, c', w')) (v, calm) k =
      if_intro (Ends P) (not (are_parametres r)) (λ _. failed-Ends P c' w')
        (λ h.
          termine-Ends P 0 (settings_of r) c' w'
            (λ _. k r c' w' v (ground (arith, h)) (ground (arith, h))))

  statut-Ends :
      (P : AmlState → Type 0) (c : AmlConnection) (w : World)
      (r : Option (Option Bytes × AmlConnection × World))
      → Answers c 0x00 (0x16 ∷ []) w r
      → ((status : Bytes) (c₁ : AmlConnection) (w₁ : World)
          → IsExchange c 0x00 (0x16 ∷ []) w status c₁ w₁
          → get_or status 7 0 ≡ 0xF0
          → (settings : Bytes) (c' : AmlConnection) (w' : World)
          → IsExchange c₁ 0x12 [] w₁ settings c' w'
          → get_or settings 7 0 ≡ 0xE2
          → 14 ≤ length settings
          → P (settings_of settings))
      → Ends P (statut_recu os fuel r)
  unfolding statut_recu is_statut
  statut-Ends P c w none v k = tt
  statut-Ends P c w (some (none, c₁, w₁)) v k = failed-Ends P c₁ w₁
  statut-Ends P c w (some (some r, c₁, w₁)) (v, calm) k =
      if_intro (Ends P) (not (is_statut r)) (λ _. failed-Ends P c₁ w₁)
        (λ h.
          parametres-Ends P c₁ w₁ (demander os fuel c₁ 0x12 [] w₁)
            (demander-Answers c₁ 0x12 [] w₁ calm) (k r c₁ w₁ v (ground (arith, h))))

  connecte-Ends :
      (devices : List AmlConfig) (name : Bytes) (w : World) (device : AmlConfig)
      (r : Option (Code × AmlConnection × World))
      → config_select devices name ≡ some device
      → aml_connect os fuel device w ≡ r
      → Ends (AreAnswers devices name w) (connecte os fuel r)
  unfolding connecte
  connecte-Ends devices name w device none s e = tt
  connecte-Ends devices name w device (some (ok, c, w₀)) s e =
      let calm : c.parser ≡ [] = (connect-IsOpened os fuel device w ok c w₀ e).empty in
      statut-Ends (AreAnswers devices name w) c w₀ (demander os fuel c 0x00 (0x16 ∷ []) w₀)
        (demander-Answers c 0x00 (0x16 ∷ []) w₀ (rw calm (omega arith)))
        (λ status c₁ w₁ x a settings c' w' y b z. record {
          device = device;
          selected = s;
          opened = c;
          behind_connect = w₀;
          connected = e;
          status = status;
          between = c₁;
          behind_status = w₁;
          status_read = x;
          status_code = a;
          settings = settings;
          left = c';
          behind_settings = w';
          settings_read = y;
          settings_code = b;
          settings_whole = z;
          read = refl;
        })
  connecte-Ends devices name w device (some (code, c, w₀)) s e =
      failed-Ends (AreAnswers devices name w) c w₀

  -- What a return of the program leaves, from a configuration.
  pub Finishes :
      Result (List AmlConfig)
      → Bytes
      → World
      → Option (ℕ × AmlState × AmlConnection × World)
      → Type 0
  Finishes config name w none = Unit
  Finishes config name w (some (code, state, c, w')) =
      (c.socket_fd ≡ none)
      × (code ≡ 0
          → (devices : List AmlConfig) × (config ≡ loaded devices)
            × AreAnswers devices name w state)

  finishes :
      (devices : List AmlConfig) (name : Bytes) (w : World)
      (r : Option (ℕ × AmlState × AmlConnection × World))
      → Ends (AreAnswers devices name w) r
      → Finishes (loaded devices) name w r
  unfolding Finishes
  finishes devices name w none v = tt
  finishes devices name w (some (code, state, c, w')) (closed, v) =
      (closed, λ e. (devices, refl, v e))

  -- When the diagnosis program returns, the connection is closed; and with the code 0 it had
  -- connected to the device that was selected, had built and sent the request for the status and
  -- received behind it a well-formed frame with the code of the status, and had then done so with
  -- the request for the settings and a frame of at least 14 bytes with their code, whose five
  -- settings it holds.
  pub diagnostic-Finishes :
      (config : Result (List AmlConfig)) (name : Bytes) (w : World)
      → Finishes config name w (diagnostic os fuel config name w)
  unfolding diagnostic Finishes
  diagnostic-Finishes (failed e) name w = (refl, λ k. absurd (ground arith))
  diagnostic-Finishes (loaded devices) name w =
      finishes devices name w (diagnostic os fuel (loaded devices) name w) (
        option_intro (Ends (AreAnswers devices name w)) (config_select devices name)
          (λ _. (refl, λ k. absurd (ground arith)))
          (λ device s. connecte-Ends devices name w device (aml_connect os fuel device w) s refl))
