-- ===== src/Examples/VisibilityCases.antt =====
-- An OAuth client with the scope for reading files, and the tool `fs_read`.
use run_on_mine.Prelude.{ℕ, ◌≡◌, refl, String, true, Option, some, List, [], ◌∷◌, any, find}
use run_on_mine.Policy.Model.{Capability-discrete, full, cloudflare_oauth, UrlApi, ConnectorConfig}
use run_on_mine.Policy.Engine.{
  evaluate, evaluate_context, matching_rule, apply_remote_safety_ceiling, is_remote, get, modes,
}
use run_on_mine.Authorization.Access.{
  Scope-discrete, files_read, load_enabled_connector, oauth_scopes_allow_capability,
  oauth_scope_for_capability, tool_capabilities, request_allows_tool,
}
use run_on_mine.Authorization.Visibility.{client, IsVisible, request_allows_tool-IsVisible}

abbrev urls : UrlApi
urls = record {
  Url = String × Option String × Option ℕ;
  scheme = λ url. url.0;
  host_str = λ url. url.1;
  port_or_known_default = λ url. url.2;
}

abbrev config : Option (List (ConnectorConfig urls.Url))
config = some (
    record {
      id = "c1";
      name = "laptop";
      kind = cloudflare_oauth;
      enabled = true;
      policy_preset = full;
      pack_overrides = [];
      tool_overrides = [];
      policy_rules = [];
    }
    ∷ [])

shows_reading :
    request_allows_tool urls "c1" config
      (client urls "c1" "c1" "assistant" "owner" "fs_read" (files_read ∷ []))
      "fs_read"
    ≡ true
unfolding request_allows_tool tool_capabilities get load_enabled_connector find evaluate
    evaluate_context matching_rule apply_remote_safety_ceiling is_remote modes
    oauth_scopes_allow_capability oauth_scope_for_capability any Scope-discrete Capability-discrete
shows_reading = refl

request_allows_tool-IsVisible_example :
    IsVisible urls "c1" "c1" "assistant" "owner" "fs_read" (files_read ∷ []) config
request_allows_tool-IsVisible_example =
    request_allows_tool-IsVisible urls "c1" "c1" "assistant" "owner" "fs_read" (files_read ∷ [])
      config shows_reading
