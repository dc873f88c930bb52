-- ===== src/Plugins/Table.antt =====
-- The endpoints for plugins of app/api/v1/admin_routes.py, on the rows of the table by their names and
-- the runtime.
use demumumind_panel.Shared.{
  ℕ, String, Bool, true, false, Option, none, some, List, length, map, if◌then◌else◌,
}
use demumumind_panel.Shared.Dict.{Dict, lookup, insert}
use demumumind_panel.Text.{Bytes, ◌+s◌, nonempty}
use demumumind_panel.Json.{Value, null, bool, str, dict, get}
use demumumind_panel.Errors.{Result, ok, raise, app, AppError, not_found_error}
use demumumind_panel.Plugins.{
  Ed25519, Wasm, Runtime, verify_ed25519, is_listed, info_of, load, invoke,
}

-- a row of `plugins`, without its name
pub record PluginRow : Type 0 where
  pub wasm : Bytes
  pub signature : String
  pub signature_valid : Bool

pub record PluginOut : Type 0 where
  pub name : String
  pub signature_valid : Bool
  pub size_bytes : ℕ
  pub loaded : Bool
  pub error : Option String

pub record InvokeResult : Type 0 where
  pub ok : Bool
  pub result : Value
  pub error : Value

-- result.get("ok") is False
is_false : Value → Bool
is_false (bool false) = true
is_false (str s) = false
is_false _ = false

-- what `invoke_plugin` answers with
unfoldable pub result_of : Value → InvokeResult
unfolding is_false
result_of (dict d) =
    if is_false (get "ok" d)
    then (record { ok = false; result = null; error = get "error" d })
    else (record { ok = true; result = get "result" d; error = null })
result_of (str s) = record { ok = true; result = str s; error = null }
result_of v = record { ok = true; result = v; error = null }

-- x_plugin_signature or ""
unfoldable pub text_or_empty : Option String → String
text_or_empty none = ""
text_or_empty (some s) = s

module _ {I : Type 0} (e : Ed25519) (configured : String) (engine : Option (Wasm I)) where
  uploaded : String → Bytes → String → Dict PluginRow → Bool × Runtime I → PluginOut
  uploaded name payload signature rows (loaded, rt) = record {
    name = name;
    signature_valid = verify_ed25519 e configured payload signature none;
    size_bytes = length payload;
    loaded = loaded;
    error = elim (info_of name rt.plugins) [ none ↦ none | some p ↦ p.error ];
  }

  unfoldable pub row_of : Bytes → String → PluginRow
  row_of payload signature = record {
    wasm = payload;
    signature = signature;
    signature_valid = verify_ed25519 e configured payload signature none;
  }

  missing_name : AppError
  missing_name = record {
    status_code = 422;
    code = "validation_error";
    message = "X-Plugin-Name header required";
    detail = none;
    request_id = none;
  }

  named_upload :
      String
      → Bytes
      → String
      → Dict PluginRow × Runtime I
      → Result PluginOut × Dict PluginRow × Runtime I
  unfolding uploaded row_of
  named_upload name payload signature (rows, rt) =
      let (loaded, rt') = load e configured engine name payload signature rt in
      (
        ok (uploaded name payload signature rows (loaded, rt')),
        insert name (row_of payload signature) rows,
        rt',
      )

  -- `upload_plugin`, on the table, where a name stands once, and the runtime
  unfoldable pub upload_plugin :
      Bytes
      → Option String
      → Option String
      → Dict PluginRow × Runtime I
      → Result PluginOut × Dict PluginRow × Runtime I
  unfolding named_upload missing_name
  upload_plugin payload x_plugin_name x_plugin_signature (rows, rt) =
      let signature = text_or_empty x_plugin_signature in
      elim x_plugin_name [
        | none ↦ (raise (app missing_name), rows, rt)
        | some name ↦
            if nonempty name
            then named_upload name payload signature (rows, rt)
            else (raise (app missing_name), rows, rt)
      ]

  -- `list_plugins`
  unfoldable pub list_plugins : Dict PluginRow → Runtime I → List PluginOut
  list_plugins rows rt =
      map
        (λ row. record {
          name = row.0;
          signature_valid = row.1.signature_valid;
          size_bytes = length row.1.wasm;
          loaded = elim (info_of row.0 rt.plugins) [ none ↦ false | some p ↦ p.loaded ];
          error = elim (info_of row.0 rt.plugins) [ none ↦ none | some p ↦ p.error ];
        })
        rows

  -- if not loaded: await runtime.load(…)
  unfoldable pub ensure_loaded : String → PluginRow → Runtime I → Runtime I
  ensure_loaded name row rt =
      if is_listed name rt.plugins
      then rt
      else (load e configured engine name row.wasm row.signature rt).1

  -- `invoke_plugin`
  unfoldable pub invoke_plugin :
      String → String → Value → Dict PluginRow → Runtime I → Result InvokeResult × Runtime I
  unfolding ensure_loaded
  invoke_plugin name fn args rows rt = elim (lookup name rows) [
    | none ↦ (raise (app (not_found_error ("Plugin not found: " +s name) none none)), rt)
    | some row ↦
        let rt' = ensure_loaded name row rt in
        (ok (result_of (invoke engine name fn args rt')), rt')
  ]
