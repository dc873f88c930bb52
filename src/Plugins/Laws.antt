-- ===== src/Plugins/Laws.antt =====
-- Uploads of plugins and calls after them.
use demumumind_panel.Shared.{
  String, ◌≡◌, refl, true, Option, some, [], ◌∷◌, ◌==◌, arith, any, if◌then◌else◌, eq_iff,
}
use demumumind_panel.Shared.Dict.{Dict, lookup, insert, lookup-insert}
use demumumind_panel.Text.{Bytes, nonempty}
use demumumind_panel.Json.{Value}
use demumumind_panel.Errors.{ok}
use demumumind_panel.Plugins.{
  Ed25519, PluginInfo, Arguments, arguments_of, Attempt, done, failed, Wasm, Runtime, is_listed,
  load, called, invoke, invoke_wasm,
}
use demumumind_panel.Plugins.Table.{
  PluginRow, row_of, text_or_empty, result_of, upload_plugin, invoke_plugin, ensure_loaded,
}

same : (k : String) → (k == k) ≡ true
same k = ground (arith, eq_iff k k)

is_listed-insert :
    (k : String) (p : PluginInfo) (d : Dict PluginInfo)
    → (p.name == k) ≡ true
    → is_listed k (insert k p d) ≡ true
unfolding is_listed insert
is_listed-insert k p [] h = rw (h, any)
is_listed-insert k p ((j, q) ∷ d) h = ground (arith, is_listed-insert k p d h)

lookup-insert_self :
    {V : Type 0} (k : String) (v : V) (d : Dict V) → lookup k (insert k v d) ≡ some v
lookup-insert_self k v d = rw (lookup-insert k k v d, same k)

module _ {I : Type 0} (e : Ed25519) (configured : String) (w : Wasm I) where
  -- a call of a function that is there
  invoked :
      (name fn : String) (args : Value) (rows : Dict PluginRow) (rt : Runtime I) {row : PluginRow}
      {i : I} {func : Arguments → Attempt Value}
      → lookup name rows ≡ some row
      → is_listed name rt.plugins ≡ true
      → lookup name rt.instances ≡ some i
      → w.export i fn ≡ some func
      → (invoke_plugin e configured (some w) name fn args rows rt).0
        ≡ ok (result_of (called (func (arguments_of args))))
  unfolding invoke_plugin ensure_loaded invoke invoke_wasm
  invoked name fn args rows rt stored listed instance exported =
      rw (stored, invoke_plugin, listed, if◌then◌else◌, instance, invoke_wasm, exported)

  after_upload :
      (payload : Bytes) (name : String) (signature : Option String) (rows : Dict PluginRow)
      (rt : Runtime I) (i : I)
      → nonempty name ≡ true
      → w.instantiate payload ≡ done i
      → (row : PluginRow) × (lookup name
            (upload_plugin e configured (some w) payload (some name) signature (rows, rt)).1
          ≡ some row)
        × (is_listed name
              (upload_plugin e configured
                (some w)
                payload
                (some name)
                signature
                (rows, rt)).2.plugins
            ≡ true)
        × (lookup name
              (upload_plugin e configured
                (some w)
                payload
                (some name)
                signature
                (rows, rt)).2.instances
            ≡ some i)
  unfolding upload_plugin load
  after_upload payload name signature rows rt i some_name instance = (
    row_of e configured (some w) payload (text_or_empty signature),
    rw some_name (lookup-insert_self name _ rows),
    rw (some_name, instance) (is_listed-insert name _ rt.plugins (same name)),
    rw (some_name, instance) (lookup-insert_self name i rt.instances),
  )

  -- A module that the engine instantiates and that exports the function, uploaded under a name that is
  -- not empty: a call of the function right after it runs the function of this module on the
  -- arguments and answers with what it gives. That is so whatever the signature is, also if it does
  -- not verify, and whatever was uploaded before.
  pub invoke_plugin-upload_plugin :
      (payload : Bytes) (name : String) (signature : Option String) (fn : String) (args : Value)
      (rows : Dict PluginRow) (rt : Runtime I) (i : I) (func : Arguments → Attempt Value)
      → nonempty name ≡ true
      → w.instantiate payload ≡ done i
      → w.export i fn ≡ some func
      → (let u = upload_plugin e configured (some w) payload (some name) signature (rows, rt) in
          (invoke_plugin e configured (some w) name fn args u.1 u.2).0)
        ≡ ok (result_of (called (func (arguments_of args))))
  invoke_plugin-upload_plugin payload name signature fn args rows rt i func some_name instance
        exported =
      let (row, stored, listed, there) =
        after_upload payload name signature rows rt i some_name instance in
      invoked name fn args _ _ stored listed there exported

  failed_upload_lem :
      (payload : Bytes) (name text : String) (signature : Option String) (rows : Dict PluginRow)
      (rt : Runtime I)
      → nonempty name ≡ true
      → w.instantiate payload ≡ failed text
      → (let u = upload_plugin e configured (some w) payload (some name) signature (rows, rt) in
          (lookup name u.1 ≡ some (row_of e configured (some w) payload (text_or_empty signature)))
          × (is_listed name u.2.plugins ≡ true)
          × (u.2.instances ≡ rt.instances))
  unfolding upload_plugin load
  failed_upload_lem payload name text signature rows rt some_name broken = (
    rw some_name (lookup-insert_self name _ rows),
    rw (some_name, broken) (is_listed-insert name _ rt.plugins (same name)),
    rw (some_name, broken) refl,
  )

  old_instance :
      (name fn : String) (args : Value) (rows : Dict PluginRow) (rt rt' : Runtime I)
      (row : PluginRow)
      → lookup name rows ≡ some row
      → is_listed name rt'.plugins ≡ true
      → rt'.instances ≡ rt.instances
      → invoke_plugin e configured (some w) name fn args rows rt'
        ≡ (ok (result_of (invoke_wasm w name fn args rt)), rt')
  unfolding invoke_plugin ensure_loaded invoke invoke_wasm
  old_instance name fn args rows rt rt' row stored listed kept =
      rw (stored, invoke_plugin, listed, if◌then◌else◌, kept, invoke_wasm) refl

  -- A module that the engine refuses, uploaded under a name that is not empty: a call of the plugin
  -- after it runs the instance that the runtime had under the name before the upload, or answers
  -- that the plugin is not loaded if there was none. The runtime stays as the upload left it, so the
  -- module is not loaded again.
  pub invoke_plugin-failed_upload :
      (payload : Bytes) (name text : String) (signature : Option String) (fn : String)
      (args : Value) (rows : Dict PluginRow) (rt : Runtime I)
      → nonempty name ≡ true
      → w.instantiate payload ≡ failed text
      → (let u = upload_plugin e configured (some w) payload (some name) signature (rows, rt) in
          invoke_plugin e configured (some w) name fn args u.1 u.2
          ≡ (ok (result_of (invoke_wasm w name fn args rt)), u.2))
  invoke_plugin-failed_upload payload name text signature fn args rows rt some_name broken =
      let (stored, listed, kept) =
        failed_upload_lem payload name text signature rows rt some_name broken in
      old_instance name fn args _ rt _ _ stored listed kept
