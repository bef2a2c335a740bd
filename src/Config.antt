-- ===== src/Config.antt =====
-- The configuration (src/core/config.c), and sweetdawn_init of src/core/sweetdawn.c, which loads it. A text is a list of
-- bytes; the JSON library is a parameter.
pub mod Loaded
use sweet_dawn.Base.{
  ℕ, zero, suc, ◌+◌, Bool, true, false, not, ◌&&◌, ◌||◌, Option, none, some, List, [], ◌∷◌, ◌++◌,
  String, ltb, leb, ◌==◌, if◌then◌else◌, length, same_bytes,
}
use sweet_dawn.Protocol.{Bytes}
use sweet_dawn.Transport.{AmlConfig}
use sweet_dawn.Json.{JsonLib, is_object, is_array, is_string, is_int}

-- `CONFIG_MAX_AMLS`, `CONFIG_NAME_MAX` and `CONFIG_MAC_LENGTH`
abbrev pub max_amls : ℕ
max_amls = 32

abbrev pub name_max : ℕ
name_max = 64

abbrev pub mac_length : ℕ
mac_length = 18

-- What the messages of `set_error` say.
pub data ConfigError : Type 0 where
  absent : String → ConfigError
  bad_length : String → ConfigError
  bad_character : String → ConfigError
  channel_absent : ConfigError
  channel_refused : Option ℕ → ConfigError
  not_an_object : ConfigError
  bad_mac : String → Bytes → ConfigError
  unreadable : String → ConfigError
  not_an_array : String → ConfigError
  no_device : ConfigError
  too_many : ℕ → ConfigError
  same_name : Bytes → ConfigError

-- -1 with its message, or 0 with what was read.
pub data Result (A : Type 0) : Type 0 where
  failed : ConfigError → Result A
  loaded : A → Result A

infixl 5 ◌>>=◌
abbrev pub ◌>>=◌ : {A B : Type 0} → Result A → (A → Result B) → Result B
failed e >>= f = failed e
loaded a >>= f = f a

-- A hexadecimal digit.
abbrev pub is_hex : ℕ → Bool
is_hex c = leb 0x30 c && leb c 0x39 || leb 0x61 c && leb c 0x66 || leb 0x41 c && leb c 0x46

-- The loop of `valid_mac`: what is left of the text, of which two characters, one or none are left
-- before a ':'.
unfoldable pub mac_loop : ℕ → Bytes → Bool
mac_loop left [] = true
mac_loop zero (c ∷ rest) = c == 0x3A && mac_loop 2 rest
mac_loop (suc left) (c ∷ rest) = is_hex c && mac_loop left rest

-- `valid_mac`
unfoldable pub valid_mac : Bytes → Bool
unfolding mac_loop
valid_mac mac = length mac == 17 && mac_loop 2 mac

-- Whether a text holds a NUL.
abbrev pub has_nul : Bytes → Bool
has_nul [] = false
has_nul (c ∷ rest) = c == 0 || has_nul rest

-- Whether a device has a name.
unfoldable pub is_named : Bytes → List AmlConfig → Bool
is_named name [] = false
is_named name (d ∷ more) = same_bytes d.name name || is_named name more

module _ (json : JsonLib) where
  open json use {Value}

  -- `read_string`, into a buffer of `capacity` bytes.
  unfoldable pub read_string : Value → String → ℕ → Result Bytes
  read_string object key capacity = elim (json.get_ex object key) [
    | none ↦ failed (absent key)
    | some value ↦
        if not (is_string (json.kind value))
        then failed (absent key)
        else let text = json.get_bytes value in
          if length text == 0 || leb capacity (length text)
          then failed (bad_length key)
          else if has_nul text
          then failed (bad_character key)
          else loaded text
  ]

  -- A channel that was read.
  abbrev pub channel_of : Option ℕ → Result ℕ
  channel_of none = failed (channel_refused none)
  channel_of (some number) =
      if ltb number 1 || ltb 30 number
      then failed (channel_refused (some number))
      else loaded number

  -- `read_channel`
  unfoldable pub read_channel : Value → Result ℕ
  read_channel object = elim (json.get_ex object "AML_CHN") [
    | none ↦ failed channel_absent
    | some value ↦
        if is_int (json.kind value) then channel_of (json.get_int value) else failed channel_absent
  ]

  -- The checks behind the reading of a device.
  unfoldable pub check_macs : AmlConfig → Result AmlConfig
  unfolding valid_mac
  check_macs device =
      if not (valid_mac device.aml_mac)
      then failed (bad_mac "AML_MAC" device.name)
      else if not (valid_mac device.blt_mac)
      then failed (bad_mac "BLT_MAC" device.name)
      else loaded device

  -- `parse_device`
  unfoldable pub parse_device : Value → Result AmlConfig
  unfolding read_string read_channel check_macs
  parse_device object = if not (is_object (json.kind object)) then failed not_an_object else do
    name ← read_string object "name" name_max
    aml_mac ← read_string object "AML_MAC" mac_length
    channel ← read_channel object
    blt_mac ← read_string object "BLT_MAC" mac_length
    check_macs (record { name = name; aml_mac = aml_mac; aml_chn = channel; blt_mac = blt_mac })

  -- A device, behind those that were read before it.
  unfoldable pub add_device : List AmlConfig → AmlConfig → Result (List AmlConfig)
  unfolding is_named
  add_device before device =
      if is_named device.name before
      then failed (same_name device.name)
      else loaded (before ++ (device ∷ []))

  -- The loop of `config_load`.
  unfoldable pub load_loop : List AmlConfig → List Value → Result (List AmlConfig)
  unfolding parse_device add_device
  load_loop before [] = loaded before
  load_loop before (entry ∷ more) = do
    device ← parse_device entry
    devices ← add_device before device
    load_loop devices more

  -- `config_load`: the devices.
  unfoldable pub config_load : String → Result (List AmlConfig)
  unfolding load_loop
  config_load path = elim (json.from_file path) [
    | none ↦ failed (unreadable path)
    | some root ↦
        if not (is_array (json.kind root))
        then failed (not_an_array path)
        else let count = length (json.array root) in
          if count == 0
          then failed no_device
          else if ltb max_amls count
          then failed (too_many count)
          else load_loop [] (json.array root)
  ]

-- The loop of `config_select`.
unfoldable pub find_named : Bytes → List AmlConfig → Option AmlConfig
find_named name [] = none
find_named name (d ∷ more) =
    let further = find_named name more in if same_bytes d.name name then some d else further

-- `config_select`; a NULL name is an empty one.
unfoldable pub config_select : List AmlConfig → Bytes → Option AmlConfig
unfolding find_named
config_select [] name = none
config_select (d ∷ more) name = if length name == 0 then some d else find_named name (d ∷ more)
