-- ===== src/Plugin/Registry.antt =====
-- src/plugins/registry.ts: the registry, built once from the entries of the configuration. A lookup by
-- an id that no entry has but every JavaScript object answers to, such as `constructor`, is left out.
-- The catalog is an argument: it has a factory, which may throw, for each id that it knows.
pub mod Lookup
use nxt_device_messaging.Common.{
  Text, text_discrete, ◌≡◌, ◌⊎◌, Bool, true, false, inl, inr, Option, none, some, List, [], ◌∷◌,
  ◌++◌, ite, arith, if◌then◌else◌,
}
use nxt_device_messaging.Plugin.{
  DeviceMessagingPlugin, delivery, token_only, DeliveryPlugin, PipelinePattern, push, pull,
}
use nxt_device_messaging.Lifecycle.Home.{Registry}

pub data RegistryError : Type 0 where
  unknown_plugin_id duplicate_plugin_id : Text → RegistryError
  factory_failed : Text → RegistryError

-- The plugins under their ids, in the order of the configuration.
abbrev pub Plugins : Type 0
Plugins = List (Text × DeviceMessagingPlugin)

pub data CreatedRegistry : Type 0 where
  refused : RegistryError → CreatedRegistry
  created : Plugins → CreatedRegistry

abbrev pub get : Plugins → Registry
get [] id = none
get ((j, plugin) ∷ rest) id = ite (text_discrete id j) (some plugin) (get rest id)

abbrev pub get_all : Plugins → List DeviceMessagingPlugin
get_all [] = []
get_all ((j, plugin) ∷ rest) = plugin ∷ get_all rest

abbrev same_pattern : PipelinePattern → PipelinePattern → Bool
same_pattern push push = true
same_pattern push pull = false
same_pattern pull push = false
same_pattern pull pull = true

abbrev if_pattern :
    PipelinePattern → DeviceMessagingPlugin → List DeliveryPlugin → List DeliveryPlugin
if_pattern pattern (token_only id) rest = rest
if_pattern pattern (delivery p) rest =
    if same_pattern p.delivery_pattern pattern then p ∷ rest else rest

-- For a pattern of delivery.
abbrev pub get_by_delivery_pattern : PipelinePattern → Plugins → List DeliveryPlugin
get_by_delivery_pattern pattern [] = []
get_by_delivery_pattern pattern ((j, plugin) ∷ rest) =
    let found = get_by_delivery_pattern pattern rest in if_pattern pattern plugin found

module _ {Entry : Type 0} (id_of : Entry → Text)
    (catalog : Text → Option (Entry → Option DeviceMessagingPlugin)) where
  abbrev pub with_plugin : Entry → Option DeviceMessagingPlugin → Plugins → Option Plugins
  with_plugin entry none plugins = none
  with_plugin entry (some plugin) plugins = some (plugins ++ (id_of entry, plugin) ∷ [])

  abbrev pub added : Entry → Option Plugins → RegistryError ⊎ Plugins
  added entry none = inl (factory_failed (id_of entry))
  added entry (some plugins) = inr plugins

  -- The checks for one entry, in their order, from the catalog's factory and the plugin already there.
  abbrev pub add_entry :
      Entry
      → Option (Entry → Option DeviceMessagingPlugin)
      → Option DeviceMessagingPlugin
      → Plugins
      → RegistryError ⊎ Plugins
  add_entry entry none present plugins = inl (unknown_plugin_id (id_of entry))
  add_entry entry (some factory) (some earlier) plugins = inl (duplicate_plugin_id (id_of entry))
  add_entry entry (some factory) none plugins =
      added entry (with_plugin entry (factory entry) plugins)

  abbrev pub continue : RegistryError ⊎ Plugins → (Plugins → CreatedRegistry) → CreatedRegistry
  continue (inl error) rest = refused error
  continue (inr plugins) rest = rest plugins

  unfoldable pub add_entries : List Entry → Plugins → CreatedRegistry
  add_entries [] plugins = created plugins
  add_entries (entry ∷ entries) plugins =
      continue (add_entry entry (catalog (id_of entry)) (get plugins (id_of entry)) plugins)
        (add_entries entries)

  unfoldable pub create_plugin_registry : List Entry → CreatedRegistry
  unfolding add_entries
  create_plugin_registry entries = add_entries entries []

  -- What the factory of an id makes has that id.
  abbrev pub KeepsIds : Type 0
  KeepsIds =
      (entry : Entry) (factory : Entry → Option DeviceMessagingPlugin) (p : DeliveryPlugin)
      → catalog (id_of entry) ≡ some factory
      → factory entry ≡ some (delivery p)
      → p.id ≡ id_of entry
