-- ===== src/Plugin/Registry/Lookup.antt =====
-- What a registry that src/plugins/registry.ts creates answers to a lookup.
use nxt_device_messaging.Common.{
  Text, text_discrete, ◌≡◌, ◌≢◌, ◌⊎◌, refl, sym, ap, subst, ◌∙◌, inl, inr, Option, none, some,
  Option-cases, List, [], ◌∷◌, ◌++◌, All, ite, arith,
}
use nxt_device_messaging.Plugin.{DeviceMessagingPlugin}
use nxt_device_messaging.Lifecycle.Home.{IsKeyed}
use nxt_device_messaging.Plugin.Registry.{
  RegistryError, factory_failed, Plugins, created, get, with_plugin, added, add_entry, continue,
  add_entries, create_plugin_registry, KeepsIds,
}

module _ {Entry : Type 0} (id_of : Entry → Text)
    (catalog : Text → Option (Entry → Option DeviceMessagingPlugin)) where
  get-append :
      (plugins : Plugins) (j i : Text) (plugin : DeviceMessagingPlugin)
      → get plugins j ≡ none
      → get (plugins ++ (j, plugin) ∷ []) i ≡ ite (text_discrete i j) (some plugin) (get plugins i)
  get-append [] j i plugin e = refl
  get-append ((k, q) ∷ rest) j i plugin e =
      let later : get rest j ≡ none = ground arith in
      let ih = get-append rest j i plugin later in ground (arith, ih)

  -- What one entry adds.
  pub record Added (entry : Entry) (plugins after : Plugins) : Type 0 where
    pub factory : Entry → Option DeviceMessagingPlugin
    pub plugin : DeviceMessagingPlugin
    pub known : catalog (id_of entry) ≡ some factory
    pub made : factory entry ≡ some plugin
    pub absent : get plugins (id_of entry) ≡ none
    pub after_eq : after ≡ plugins ++ (id_of entry, plugin) ∷ []

  add_entry-Added :
      (entry : Entry) (o : Option (Entry → Option DeviceMessagingPlugin))
      (present : Option DeviceMessagingPlugin) (plugins after : Plugins)
      → catalog (id_of entry) ≡ o
      → get plugins (id_of entry) ≡ present
      → add_entry id_of catalog entry o present plugins ≡ inr after
      → Added entry plugins after
  add_entry-Added entry none present plugins after e f h = cc
  add_entry-Added entry (some factory) (some earlier) plugins after e f h = cc
  add_entry-Added entry (some factory) none plugins after e f h =
      elim (Option-cases (factory entry)) [
        | inl failed ↦ absurd (
            never (
              sym (
                ap
                  (λ (o : Option DeviceMessagingPlugin).
                    added id_of catalog entry (with_plugin id_of catalog entry o plugins))
                  failed)
              ∙ h))
        | inr (plugin, made) ↦ record {
          factory = factory;
          plugin = plugin;
          known = e;
          made = made;
          absent = f;
          after_eq = same plugin (
              sym (
                ap
                  (λ (o : Option DeviceMessagingPlugin).
                    added id_of catalog entry (with_plugin id_of catalog entry o plugins))
                  made)
              ∙ h);
        }
      ]
    where
      never : ◌≡◌ {A = RegistryError ⊎ Plugins} (inl (factory_failed (id_of entry))) (inr after) → ⊥
      never e = cc

      same :
          (plugin : DeviceMessagingPlugin)
          → ◌≡◌ {A = RegistryError ⊎ Plugins}
              (inr (plugins ++ (id_of entry, plugin) ∷ []))
              (inr after)
          → after ≡ plugins ++ (id_of entry, plugin) ∷ []
      same plugin e = cc

  -- The first turn of a loop that ends well.
  add_entries_step :
      (entry : Entry) (entries : List Entry) (plugins last : Plugins)
      → add_entries id_of catalog (entry ∷ entries) plugins ≡ created last
      → (after : Plugins) × (Added entry plugins after
          × (add_entries id_of catalog entries after ≡ created last))
  unfolding add_entries
  add_entries_step entry entries plugins last e =
      go (add_entry id_of catalog entry (catalog (id_of entry)) (get plugins (id_of entry)) plugins)
        refl e
    where
      go :
          (r : RegistryError ⊎ Plugins)
          → add_entry id_of catalog entry
              (catalog (id_of entry))
              (get plugins (id_of entry))
              plugins
            ≡ r
          → continue id_of catalog r (add_entries id_of catalog entries) ≡ created last
          → (after : Plugins) × (Added entry plugins after
              × (add_entries id_of catalog entries after ≡ created last))
      go (inl error) same e = cc
      go (inr after) same e = (after, (add_entry-Added entry _ _ plugins after refl refl same, e))

  created_inj : (plugins last : Plugins) → created plugins ≡ created last → plugins ≡ last
  created_inj plugins last e = cc

  -- A property of the plugins that each entry keeps holds at the end of the loop.
  add_entries_keeps :
      (P : Plugins → Type 0)
      → ((entry : Entry) (plugins after : Plugins)
          → Added entry plugins after
          → P plugins
          → P after)
      → (entries : List Entry) (plugins last : Plugins)
      → add_entries id_of catalog entries plugins ≡ created last
      → P plugins
      → P last
  unfolding add_entries
  add_entries_keeps P keeps [] plugins last e h = subst P (created_inj plugins last e) h
  add_entries_keeps P keeps (entry ∷ entries) plugins last e h =
      let (after, (a, rest)) = add_entries_step entry entries plugins last e in
      add_entries_keeps P keeps entries after last rest (keeps entry plugins after a h)

  Added-get :
      (entry : Entry) (plugins after : Plugins) (i : Text)
      → (a : Added entry plugins after)
      → get after i ≡ ite (text_discrete i (id_of entry)) (some a.plugin) (get plugins i)
  Added-get entry plugins after i a =
      rw a.after_eq (get-append plugins (id_of entry) i a.plugin a.absent)

  get_new :
      (entry : Entry) (plugins after : Plugins) (a : Added entry plugins after)
      → get after (id_of entry) ≡ some a.plugin
  get_new entry plugins after a = ground (arith, Added-get entry plugins after (id_of entry) a)

  get_old :
      (entry : Entry) (plugins after : Plugins) (i : Text)
      → Added entry plugins after
      → i ≢ id_of entry
      → get after i ≡ get plugins i
  get_old entry plugins after i a ne = ground (arith, Added-get entry plugins after i a)

  -- A registry that is created, from a catalog whose delivery plugins have the ids they are listed
  -- under, gives every delivery plugin under its own id.
  pub create_plugin_registry-IsKeyed :
      (entries : List Entry) (plugins : Plugins)
      → KeepsIds id_of catalog
      → create_plugin_registry id_of catalog entries ≡ created plugins
      → IsKeyed (get plugins)
  unfolding create_plugin_registry
  create_plugin_registry-IsKeyed entries plugins own e =
      add_entries_keeps (λ (ps : Plugins). IsKeyed (get ps)) keeps entries [] plugins e
        (λ id p f. cc)
    where
      keeps :
          (entry : Entry) (before after : Plugins)
          → Added entry before after
          → IsKeyed (get before)
          → IsKeyed (get after)
      keeps entry before after a keyed id p f = elim (text_discrete id (id_of entry)) [
        | yes same ↦
            own entry a.factory p a.known
              (a.made ∙ (sym (get_new entry before after a) ∙ (ap (get after) (sym same) ∙ f)))
            ∙ sym same
        | no ne ↦ keyed id p (sym (get_old entry before after id a ne) ∙ f)
      ]

  -- The entry's id leads to the plugin that its factory made.
  pub record Enabled (plugins : Plugins) (entry : Entry) : Type 0 where
    pub factory : Entry → Option DeviceMessagingPlugin
    pub plugin : DeviceMessagingPlugin
    pub known : catalog (id_of entry) ≡ some factory
    pub made : factory entry ≡ some plugin
    pub found : get plugins (id_of entry) ≡ some plugin

  get_kept :
      (i : Text) (plugin : DeviceMessagingPlugin) (entry : Entry) (before after : Plugins)
      → Added entry before after
      → get before i ≡ some plugin
      → get after i ≡ some plugin
  get_kept i plugin entry before after a e = elim (text_discrete i (id_of entry)) [
    | yes same ↦ absurd (both (sym (ap (get before) same ∙ a.absent) ∙ e))
    | no ne ↦ get_old entry before after i a ne ∙ e
  ]
    where
      both : ◌≡◌ {A = Option DeviceMessagingPlugin} none (some plugin) → ⊥
      both e = cc

  add_entries-Enabled :
      (entries : List Entry) (plugins last : Plugins)
      → add_entries id_of catalog entries plugins ≡ created last
      → All (Enabled last) entries
  add_entries-Enabled [] plugins last e = tt
  add_entries-Enabled (entry ∷ entries) plugins last e =
      let (after, (a, rest)) = add_entries_step entry entries plugins last e in
      (
        record {
          factory = a.factory;
          plugin = a.plugin;
          known = a.known;
          made = a.made;
          found =
              add_entries_keeps (λ (ps : Plugins). get ps (id_of entry) ≡ some a.plugin)
                (get_kept (id_of entry) a.plugin) entries after last rest
                (get_new entry plugins after a);
        },
        add_entries-Enabled entries after last rest,
      )

  -- In a registry that is created, every entry of the configuration was known to the catalog, and its
  -- id leads to the plugin that its factory made.
  pub create_plugin_registry-Enabled :
      (entries : List Entry) (plugins : Plugins)
      → create_plugin_registry id_of catalog entries ≡ created plugins
      → All (Enabled plugins) entries
  unfolding create_plugin_registry
  create_plugin_registry-Enabled entries plugins e = add_entries-Enabled entries [] plugins e
