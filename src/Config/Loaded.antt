-- ===== src/Config/Loaded.antt =====
-- What a configuration is that was loaded (src/core/config.c).
use sweet_dawn.Base.{
  ℕ, ◌+◌, ◌≡◌, ◌≤◌, ◌<◌, refl, sym, arith, subst, true, false, not, ◌||◌, Option, none, some, List,
  [], ◌∷◌, ◌++◌, String, length, ltb, leb, ◌==◌, same_bytes, same_bytes_iff, if_intro, option_intro,
  length-append, append-nil, append_assoc,
}
use sweet_dawn.Protocol.{Bytes}
use sweet_dawn.Transport.{AmlConfig}
use sweet_dawn.Json.{JsonLib, is_object, is_array, is_string, is_int}
use sweet_dawn.Config.{
  name_max, mac_length, max_amls, Result, failed, loaded, ◌>>=◌, valid_mac, has_nul, is_named,
  read_string, channel_of, read_channel, check_macs, parse_device, add_device, load_loop,
  config_load, find_named, config_select,
}

-- A text that fits a buffer of so many bytes, its final NUL included.
pub record IsText (capacity : ℕ) (text : Bytes) : Type 0 where
  pub some_bytes : 1 ≤ length text
  pub fits : length text < capacity
  pub no_nul : has_nul text ≡ false

pub record IsDevice (d : AmlConfig) : Type 0 where
  pub name_text : IsText name_max d.name
  pub aml_valid : valid_mac d.aml_mac ≡ true
  pub blt_valid : valid_mac d.blt_mac ≡ true
  pub channel_low : 1 ≤ d.aml_chn
  pub channel_high : d.aml_chn ≤ 30

-- Devices, none of which has a name of those before it.
abbrev pub AreDevices : List AmlConfig → List AmlConfig → Type 0
AreDevices before [] = Unit
AreDevices before (d ∷ more) =
    IsDevice d × (is_named d.name before ≡ false) × AreDevices (before ++ (d ∷ [])) more

abbrev Yields : {A : Type 0} (P : A → Type 0) → Result A → Type 0
Yields P (failed e) = Unit
Yields P (loaded a) = P a

-- What holds of the two parts holds of a chain.
bind :
    {A B : Type 0} (P : A → Type 0) (Q : B → Type 0) (r : Result A) (f : A → Result B)
    → Yields P r
    → ((a : A) → P a → Yields Q (f a))
    → Yields Q (r >>= f)
bind P Q (failed e) f v k = tt
bind P Q (loaded a) f v k = k a v

AreDevices-append :
    (before l : List AmlConfig) (d : AmlConfig)
    → AreDevices before l
    → IsDevice d
    → is_named d.name (before ++ l) ≡ false
    → AreDevices before (l ++ (d ∷ []))
AreDevices-append before [] d v w h =
    (w, subst (λ x. is_named d.name x ≡ false) (append-nil before) h, tt)
AreDevices-append before (x ∷ l) d (a, b, v) w h = (
  a,
  b,
  AreDevices-append (before ++ (x ∷ [])) l d v w
      (subst (λ x. is_named d.name x ≡ false) (sym (append_assoc before (x ∷ []) l)) h),
)

module _ (json : JsonLib) where
  open json use {Value}

  read_string-IsText :
      (object : Value) (key : String) (capacity : ℕ)
      → Yields (IsText capacity) (read_string json object key capacity)
  unfolding read_string
  read_string-IsText object key capacity =
      option_intro (Yields (IsText capacity)) (json.get_ex object key) (λ _. tt)
        (λ value _.
          if_intro (Yields (IsText capacity)) (not (is_string (json.kind value))) (λ _. tt)
            (λ _.
              let text = json.get_bytes value in
              if_intro (Yields (IsText capacity)) (length text == 0 || leb capacity (length text))
                (λ _. tt)
                (λ h.
                  if_intro (Yields (IsText capacity)) (has_nul text) (λ _. tt)
                    (λ k. record { some_bytes = ground arith; fits = ground arith; no_nul = k }))))

  abbrev IsChannel : ℕ → Type 0
  IsChannel n = (1 ≤ n) × (n ≤ 30)

  read_channel-IsChannel : (object : Value) → Yields IsChannel (read_channel json object)
  unfolding read_channel
  read_channel-IsChannel object =
      option_intro (Yields IsChannel) (json.get_ex object "AML_CHN") (λ _. tt)
        (λ value _.
          if_intro (Yields IsChannel) (is_int (json.kind value)) (λ _. number (json.get_int value))
            (λ _. tt))
    where
      number : (n : Option ℕ) → Yields IsChannel (channel_of json n)
      number none = tt
      number (some n) =
          if_intro (Yields IsChannel) (ltb n 1 || ltb 30 n) (λ _. tt)
            (λ h. (ground arith, ground arith))

  parse_device-IsDevice : (object : Value) → Yields IsDevice (parse_device json object)
  unfolding parse_device
  parse_device-IsDevice object =
      if_intro (Yields IsDevice) (not (is_object (json.kind object))) (λ _. tt)
        (λ _.
          bind (IsText name_max) IsDevice (read_string json object "name" name_max) _
            (read_string-IsText object "name" name_max)
            (λ name n.
              bind (IsText mac_length) IsDevice (read_string json object "AML_MAC" mac_length) _
                (read_string-IsText object "AML_MAC" mac_length)
                (λ aml a.
                  bind IsChannel IsDevice (read_channel json object) _
                    (read_channel-IsChannel object)
                    (λ channel c.
                      bind (IsText mac_length) IsDevice
                        (read_string json object "BLT_MAC" mac_length) _
                        (read_string-IsText object "BLT_MAC" mac_length)
                        (λ blt b.
                          checked
                            (record {
                              name = name;
                              aml_mac = aml;
                              aml_chn = channel;
                              blt_mac = blt;
                            })
                            n c)))))
    where
      checked :
          (d : AmlConfig)
          → IsText name_max d.name
          → IsChannel d.aml_chn
          → Yields IsDevice (check_macs json d)
      checked d n c =
          unfold check_macs in
          if_intro (Yields IsDevice) (not (valid_mac d.aml_mac)) (λ _. tt)
            (λ h.
              if_intro (Yields IsDevice) (not (valid_mac d.blt_mac)) (λ _. tt)
                (λ k. record {
                  name_text = n;
                  aml_valid = ground arith;
                  blt_valid = ground arith;
                  channel_low = c.0;
                  channel_high = c.1;
                }))

  -- So many devices.
  abbrev pub Devices : ℕ → List AmlConfig → Type 0
  Devices n ds = AreDevices [] ds × (length ds ≡ n)

  loop_read :
      (before : List AmlConfig) (entries : List Value) (n m : ℕ)
      → Devices n before
      → n + length entries ≡ m
      → Yields (Devices m) (load_loop json before entries)
  unfolding load_loop
  loop_read before [] n m (v, l) h = (v, omega (arith, l))
  loop_read before (entry ∷ more) n m (v, l) h =
      bind IsDevice (Devices m) (parse_device json entry) _ (parse_device-IsDevice entry) (λ d w.
        bind (Devices (n + 1)) (Devices m) (add_device json before d) _ (added d w)
          (λ ds u. loop_read ds more (n + 1) m u (omega arith)))
    where
      added : (d : AmlConfig) → IsDevice d → Yields (Devices (n + 1)) (add_device json before d)
      added d w =
          unfold add_device in
          if_intro (Yields (Devices (n + 1))) (is_named d.name before) (λ _. tt)
            (λ k. (
              AreDevices-append [] before d v w k,
              omega (arith, l, length-append before (d ∷ [])),
            ))

  -- A configuration that is loaded has 1 to 32 devices, each with a name of 1 to 63 bytes without
  -- a NUL, two well-formed addresses and a channel from 1 to 30, and no two of them have the same
  -- name.
  pub load-AreDevices :
      (path : String) (ds : List AmlConfig)
      → config_load json path ≡ loaded ds
      → AreDevices [] ds × (1 ≤ length ds) × (length ds ≤ max_amls)
  unfolding config_load
  load-AreDevices path ds h = subst (Yields Good) h (
      option_intro (Yields Good) (json.from_file path) (λ _. tt)
        (λ root _.
          let entries = json.array root in
          if_intro (Yields Good) (not (is_array (json.kind root))) (λ _. tt)
            (λ _.
              if_intro (Yields Good) (length entries == 0) (λ _. tt)
                (λ k.
                  if_intro (Yields Good) (ltb max_amls (length entries)) (λ _. tt)
                    (λ l.
                      enough (length entries) (ground arith) (ground arith)
                        (load_loop json [] entries)
                        (loop_read [] entries 0 (length entries) (tt, refl) (omega arith)))))))
    where
      Good : List AmlConfig → Type 0
      Good ds = AreDevices [] ds × (1 ≤ length ds) × (length ds ≤ max_amls)

      enough :
          (n : ℕ)
          → 1 ≤ n
          → n ≤ max_amls
          → (r : Result (List AmlConfig)) → Yields (Devices n) r
          → Yields Good r
      enough n a b (failed e) v = tt
      enough n a b (loaded l) (v, c) = (v, omega (arith, a, c), omega (arith, b, c))

-- A device with some before it and some behind it.
named_before :
    (before pre : List AmlConfig) (d : AmlConfig) (post : List AmlConfig)
    → AreDevices before (pre ++ (d ∷ post))
    → IsDevice d × (is_named d.name (before ++ pre) ≡ false)
named_before before [] d post (v, n, w) =
    (v, subst (λ l. is_named d.name l ≡ false) (sym (append-nil before)) n)
named_before before (x ∷ pre) d post (v, n, w) =
    let (u, m) = named_before (before ++ (x ∷ [])) pre d post w in
    (u, subst (λ l. is_named d.name l ≡ false) (append_assoc before (x ∷ []) pre) m)

found_behind :
    (pre : List AmlConfig) (d : AmlConfig) (post : List AmlConfig)
    → is_named d.name pre ≡ false
    → find_named d.name (pre ++ (d ∷ post)) ≡ some d
unfolding find_named is_named
found_behind [] d post h =
    let e : same_bytes d.name d.name ≡ true = (same_bytes_iff d.name d.name).1 refl in
    rw (e, find_named) refl
found_behind (x ∷ pre) d post h =
    let e : same_bytes x.name d.name ≡ false = ground arith in
    let k : is_named d.name pre ≡ false = ground arith in
    rw (e, find_named) (found_behind pre d post k)

-- Each device of a loaded configuration is the one that is selected by its name.
pub select_named :
    (pre : List AmlConfig) (d : AmlConfig) (post : List AmlConfig)
    → AreDevices [] (pre ++ (d ∷ post))
    → config_select (pre ++ (d ∷ post)) d.name ≡ some d
unfolding config_select
select_named pre d post v =
    let (w, n) = named_before [] pre d post v in
    let long : (length d.name == 0) ≡ false = let l = w.name_text.some_bytes in ground arith in
    select_found pre long (found_behind pre d post n)
  where
    select_found :
        (pre : List AmlConfig)
        → (length d.name == 0) ≡ false
        → find_named d.name (pre ++ (d ∷ post)) ≡ some d
        → config_select (pre ++ (d ∷ post)) d.name ≡ some d
    select_found [] l f = rw (l, config_select) f
    select_found (x ∷ pre) l f = rw (l, config_select) f
