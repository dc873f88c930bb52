-- ===== src/Plugins.antt =====
-- app/services/plugin_manager.py: the runtimes of plugins. The Ed25519 functions and the WebAssembly
-- engine are parameters; bytes are a list.
pub mod Table
pub mod Laws
mod Examples
use demumumind_panel.Shared.{
  ℕ, String, Bool, true, false, ◌&&◌, Option, none, some, List, [], ◌∷◌, ◌==◌, any, length, map,
  if◌then◌else◌,
}
use demumumind_panel.Shared.Dict.{Dict, lookup, insert}
use demumumind_panel.Text.{Bytes, ◌+s◌, nonempty, or_text}
use demumumind_panel.Json.{Value, null, bool, str, list, dict, Items, Fields, end, field, get}
use demumumind_panel.Errors.{Result, ok, raise, app, AppError, not_found_error}

-- `bytes.fromhex` and `Ed25519PublicKey.from_public_bytes`, none being a ValueError, and whether
-- `verify` returns
pub record Ed25519 : Type 0 where
  pub from_hex : String → Option Bytes
  pub from_public_bytes : Bytes → Option Bytes
  pub verifies : Bytes → Bytes → Bytes → Bool

pub record PluginInfo : Type 0 where
  pub name : String
  pub size_bytes : ℕ
  pub loaded : Bool
  pub signature_valid : Bool
  pub error : Option String

-- public_key_hex or settings.PLUGIN_PUBLIC_KEY_HEX
key_hex : Option String → String → String
key_hex none configured = configured
key_hex (some k) configured = or_text k configured

-- the `try` block
verified : Ed25519 → Bytes → String → String → Bool
verified e payload signature_hex pub_hex = elim (e.from_hex signature_hex) [
  | none ↦ false
  | some signature ↦ elim (e.from_hex pub_hex) [
    | none ↦ false
    | some raw ↦ elim (e.from_public_bytes raw) [
      | none ↦ false
      | some key ↦ e.verifies key signature payload
    ]
  ]
]

-- `verify_ed25519`; `configured` is the key of the settings
unfoldable pub verify_ed25519 : Ed25519 → String → Bytes → String → Option String → Bool
unfolding key_hex verified
verify_ed25519 e configured payload signature_hex public_key_hex =
    let pub_hex = key_hex public_key_hex configured in
    if nonempty pub_hex then verified e payload signature_hex pub_hex else false

-- How `invoke` passes its arguments on.
pub data Arguments : Type 0 where
  no_arguments : Arguments
  positional : Items → Arguments
  keywords : Fields → Arguments
  single : Value → Arguments

unfoldable pub arguments_of : Value → Arguments
arguments_of null = no_arguments
arguments_of (list xs) = positional xs
arguments_of (dict d) = keywords d
arguments_of (str s) = single (str s)
arguments_of v = single v

-- The WebAssembly engine: an instance of a module, or the text of the exception, and its exports, a
-- call of which returns a value or the text of an exception.
pub data Attempt (A : Type 0) : Type 0 where
  done : A → Attempt A
  failed : String → Attempt A

pub record Wasm (I : Type 0) : Type 0 where
  pub instantiate : Bytes → Attempt I
  pub export : I → String → Option (Arguments → Attempt Value)

-- the dicts that `invoke` returns
failure : String → Value
failure text = dict (field "ok" (bool false) (field "error" (str text) end))

success : Value → Value
success v = dict (field "ok" (bool true) (field "result" v end))

-- `_plugins` and `_instances`
pub record Runtime (I : Type 0) : Type 0 where
  pub plugins : Dict PluginInfo
  pub instances : Dict I

-- any(p.name == name for p in runtime.list())
unfoldable pub is_listed : String → Dict PluginInfo → Bool
is_listed name plugins = any (λ e. e.1.name == name) plugins

-- next((p for p in runtime.list() if p.name == name), None)
unfoldable pub info_of : String → Dict PluginInfo → Option PluginInfo
info_of name [] = none
info_of name ((k, p) ∷ ps) = if p.name == name then some p else info_of name ps

module _ (e : Ed25519) (configured : String) where
  info : String → Bytes → String → Bool → Option String → PluginInfo
  info name wasm signature_hex loaded error = record {
    name = name;
    size_bytes = length wasm;
    loaded = loaded;
    signature_valid = verify_ed25519 e configured wasm signature_hex none;
    error = error;
  }

  -- `NoopRuntime.load`
  unfoldable pub load_noop : {I : Type 0} → String → Bytes → String → Runtime I → Bool × Runtime I
  unfolding info
  load_noop name wasm signature_hex rt =
      if nonempty name
      then (
        true,
        record rt { plugins = insert name (info name wasm signature_hex true none) rt.plugins },
      )
      else (false, rt)

  instantiated : {I : Type 0} → String → Bytes → String → Runtime I → Attempt I → Bool × Runtime I
  unfolding info
  instantiated name wasm signature_hex rt (done i) = (
    true,
    record {
      plugins = insert name (info name wasm signature_hex true none) rt.plugins;
      instances = insert name i rt.instances;
    },
  )
  instantiated name wasm signature_hex rt (failed text) = (
    false,
    record rt { plugins = insert name (info name wasm signature_hex false (some text)) rt.plugins },
  )

  -- `load` of the runtime: `WasmtimeRuntime` with an engine, `NoopRuntime` without
  unfoldable pub load :
      {I : Type 0} → Option (Wasm I) → String → Bytes → String → Runtime I → Bool × Runtime I
  unfolding instantiated
  load none name wasm signature_hex rt = load_noop name wasm signature_hex rt
  load (some w) name wasm signature_hex rt =
      if nonempty name
      then instantiated name wasm signature_hex rt (w.instantiate wasm)
      else (false, rt)

unfoldable pub called : Attempt Value → Value
unfolding failure success
called (done v) = success v
called (failed text) = failure text

-- `WasmtimeRuntime.invoke`
unfoldable pub invoke_wasm : {I : Type 0} → Wasm I → String → String → Value → Runtime I → Value
unfolding failure called
invoke_wasm w name fn args rt = elim (lookup name rt.instances) [
  | none ↦ failure ("plugin not loaded: " +s name)
  | some i ↦ elim (w.export i fn) [
    | none ↦ failure ("export not found: " +s fn)
    | some func ↦ called (func (arguments_of args))
  ]
]

-- `invoke` of the runtime
unfoldable pub invoke : {I : Type 0} → Option (Wasm I) → String → String → Value → Runtime I → Value
unfolding failure
invoke none name fn args rt = failure "wasm execution not enabled (NoopRuntime)"
invoke (some w) name fn args rt = invoke_wasm w name fn args rt
