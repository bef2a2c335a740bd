-- ===== src/Init/Ready.antt =====
-- What `sweetdawn_init` (src/core/sweetdawn.c) leaves behind.
use sweet_dawn.Base.{
  ◌≡◌, ◌⊎◌, inl, inr, refl, arith, subst, false, Option, none, some, List, [], ◌∷◌, ◌++◌, String,
  length, same, same_bytes, ◌==◌, some-eq, same_bytes_iff, Bool-cases, if_intro, option_intro,
}
use sweet_dawn.Protocol.{Bytes}
use sweet_dawn.State.{state_init}
use sweet_dawn.Transport.{AmlConfig}
use sweet_dawn.Link.Invariant.{IsLinked}
use sweet_dawn.Json.{JsonLib}
use sweet_dawn.Command.{Command}
use sweet_dawn.Command.Aml.{aml_commands_init}
use sweet_dawn.Command.Tree.{IsTree}
use sweet_dawn.Command.Built.{aml_commands-IsTree}
use sweet_dawn.Config.{Result, failed, loaded, config_load, find_named, config_select}
use sweet_dawn.Config.Loaded.{IsDevice, AreDevices, load-AreDevices}
use sweet_dawn.Init.{Started, Outcome, started, init_commands, init_device, sweetdawn_init}

-- What the program works with.
pub record IsReady {Ctx : Type 0} (name : Bytes) (s : Started Ctx) : Type 0 where
  pub device : AmlConfig
  pub chosen : s.app.device ≡ some device
  pub selected : config_select s.devices name ≡ some device
  pub valid : IsDevice device
  pub named : (length name ≡ 0) ⊎ (device.name ≡ name)
  pub linked : IsLinked state_init s.app
  pub down : s.app.connected ≡ false
  pub tree : IsTree s.commands

-- A device that was found is one of those that were read, with its name.
found_valid :
    (before ds : List AmlConfig) (name : Bytes) (d : AmlConfig)
    → AreDevices before ds
    → find_named name ds ≡ some d
    → IsDevice d × (d.name ≡ name)
unfolding find_named
found_valid before [] name d v h = absurd (ground arith)
found_valid before (x ∷ more) name d (v, n, w) h = elim (Bool-cases (same_bytes x.name name)) [
  | inl e ↦
      let same_one : x ≡ d = some-eq x d (rw (e, find_named) at h) in
      subst (λ (z : AmlConfig). IsDevice z × (z.name ≡ name)) same_one
        (v, (same_bytes_iff x.name name).0 e)
  | inr e ↦ found_valid (before ++ (x ∷ [])) more name d w (rw (e, find_named) at h)
]

selected_valid :
    (ds : List AmlConfig) (name : Bytes) (d : AmlConfig)
    → AreDevices [] ds
    → config_select ds name ≡ some d
    → IsDevice d × ((length name ≡ 0) ⊎ (d.name ≡ name))
unfolding config_select
selected_valid [] name d v h = absurd (ground arith)
selected_valid (x ∷ more) name d v h = elim (Bool-cases (length name == 0)) [
  | inl e ↦
      let same_one : x ≡ d = some-eq x d (rw (e, config_select) at h) in
      (subst IsDevice same_one v.0, inl (ground arith))
  | inr e ↦
      let (w, n) = found_valid [] (x ∷ more) name d v (rw (e, config_select) at h) in (w, inr n)
]

abbrev Leaves : {Ctx : Type 0} → Bytes → Outcome Ctx → Type 0
Leaves name (started s) = IsReady name s
Leaves name _ = Unit

module _ {Ctx : Type 0} (name : Bytes) (ctx : Ctx) where
  commands-Leaves :
      (devices : List AmlConfig) (device : AmlConfig)
      → AreDevices [] devices
      → config_select devices name ≡ some device
      → (r : Option (Unit {0} × List Command)) → aml_commands_init ≡ r
      → Leaves name (init_commands devices device ctx r)
  unfolding init_commands
  commands-Leaves devices device v e none h = tt
  commands-Leaves devices device v e (some (u, commands)) h =
      let (w, n) = selected_valid devices name device v e in
      record {
        device = device;
        chosen = refl;
        selected = e;
        valid = w;
        named = n;
        linked = ground arith;
        down = refl;
        tree = aml_commands-IsTree commands h;
      }

  device-Leaves :
      (r : Result (List AmlConfig))
      → ((ds : List AmlConfig) → r ≡ loaded ds → AreDevices [] ds)
      → Leaves name (init_device name ctx r)
  unfolding init_device
  device-Leaves (failed e) k = tt
  device-Leaves (loaded devices) k =
      option_intro (Leaves name) (config_select devices name) (λ _. tt)
        (λ device e. commands-Leaves devices device (k devices refl) e aml_commands_init refl)

-- When sweetdawn_init returns 0 the program has a device with a name of less than 64 bytes, two
-- well-formed addresses and a channel from 1 to 30, which is the one of the given name if one is
-- given; its commands are a tree, in which each child knows its parent, no two children answer to
-- the same name and every chain of parents ends; and the invariant of the supervision holds, with
-- the link down.
pub init-IsReady :
    {Ctx : Type 0} (json : JsonLib) (path : String) (name : Bytes) (ctx : Ctx) (s : Started Ctx)
    → sweetdawn_init json path name ctx ≡ started s
    → IsReady name s
unfolding sweetdawn_init
init-IsReady json path name ctx s h = subst (Leaves name) h (
    if_intro (Leaves name) (same path "") (λ _. tt)
      (λ _.
        device-Leaves name ctx (config_load json path)
          (λ ds e. (load-AreDevices json path ds e).0)))
