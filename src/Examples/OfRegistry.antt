-- ===== src/Examples/OfRegistry.antt =====
-- A registry of one plugin, from a catalog that knows that plugin alone.
use nxt_device_messaging.Common.{
  Text, txt, text_discrete, ◌≡◌, refl, sym, ap, ◌∙◌, Option, none, some, [], ◌∷◌, All, ite, arith,
}
use nxt_device_messaging.Plugin.{DeviceMessagingPlugin, delivery, DeliveryPlugin}
use nxt_device_messaging.Plugin.Registry.{
  Plugins, KeepsIds, get, created, create_plugin_registry, add_entries,
}
use nxt_device_messaging.Plugin.Registry.Lookup.{
  Enabled, create_plugin_registry-IsKeyed, create_plugin_registry-Enabled,
}
use nxt_device_messaging.Lifecycle.Home.{IsKeyed}
use nxt_device_messaging.Examples.Fixtures.{acme}

-- An entry is its id.
abbrev same : Text → Text
same id = id

abbrev make_acme : Text → Option DeviceMessagingPlugin
make_acme entry = some (delivery acme)

abbrev catalog : Text → Option (Text → Option DeviceMessagingPlugin)
catalog id = ite (text_discrete id (txt "acme")) (some make_acme) none

abbrev plugins : Plugins
plugins = (txt "acme", delivery acme) ∷ []

registered : create_plugin_registry same catalog (txt "acme" ∷ []) ≡ created plugins
unfolding create_plugin_registry add_entries text_discrete
registered = refl

catalog_known :
    (id : Text) (factory : Text → Option DeviceMessagingPlugin)
    → catalog id ≡ some factory
    → (id ≡ txt "acme") × (make_acme ≡ factory)
catalog_known id factory e = elim (text_discrete id (txt "acme")) [
  | yes same ↦ (same, ground arith)
  | no ne ↦ absurd (ground arith)
]

delivery_inj :
    (p : DeliveryPlugin)
    → ◌≡◌ {A = Option DeviceMessagingPlugin} (some (delivery acme)) (some (delivery p))
    → acme ≡ p
delivery_inj p e = cc

catalog-KeepsIds : KeepsIds same catalog
catalog-KeepsIds entry factory p known made =
    let (listed, made_by) = catalog_known entry factory known in
    let same_plugin =
      delivery_inj p (ap (λ (f : Text → Option DeviceMessagingPlugin). f entry) made_by ∙ made) in
    sym (ap (λ (q : DeliveryPlugin). q.id) same_plugin) ∙ sym listed

create_plugin_registry-IsKeyed_example : IsKeyed (get plugins)
create_plugin_registry-IsKeyed_example =
    create_plugin_registry-IsKeyed same catalog (txt "acme" ∷ []) plugins catalog-KeepsIds
      registered

create_plugin_registry-Enabled_example : All (Enabled same catalog plugins) (txt "acme" ∷ [])
create_plugin_registry-Enabled_example =
    create_plugin_registry-Enabled same catalog (txt "acme" ∷ []) plugins registered
