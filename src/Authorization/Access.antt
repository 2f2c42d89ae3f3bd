-- ===== src/Authorization/Access.antt =====
-- Who calls: `RequestAccess` of mcp/runtime.rs, the OAuth scope that a capability needs, and
-- `request_allows_tool` of mcp/server.rs, which decides the tools that a caller sees.
use run_on_mine.Prelude.{
  String, str_eq, Bool, true, false, not, ◌&&◌, Option, none, some, List, [], ◌∷◌, any, find,
  if◌then◌else◌,
}
use Prim.Native.String.{◌++◌}
use run_on_mine.Prelude.Eq.{Eq, ◌==◌, string_eq, discrete_eq}
use run_on_mine.Policy.Model.{Capability, PolicyMode, UrlApi, ConnectorConfig}
use run_on_mine.Policy.Engine.{evaluate, get, mode_beq}
use run_on_mine.Approval.Principal.{ApprovalPrincipal}

pub data Scope : Type 0 where
  machine_read files_read files_write shell_exec platform_native : Scope
  browser_read browser_act desktop_control admin_exec : Scope

unfoldable pub Scope-discrete : Discrete Scope
Scope-discrete = hlevel

instance abbrev pub scope_eq : Eq Scope
scope_eq = discrete_eq Scope-discrete

pub data RequestPrincipal : Type 0 where
  local_http quick_tunnel : RequestPrincipal
  oauth : String → String → List Scope → RequestPrincipal

pub record RequestAccess : Type 0 where
  pub connector_id : String
  pub principal : RequestPrincipal

abbrev pub principal_rate_key : RequestPrincipal → String
principal_rate_key local_http = "local_http"
principal_rate_key quick_tunnel = "quick_tunnel"
principal_rate_key (oauth client_id _ _) = "oauth:" ++ client_id

abbrev pub rate_limit_key : RequestAccess → String
rate_limit_key access = principal_rate_key access.principal

abbrev pub principal_for_approval : RequestPrincipal → ApprovalPrincipal
principal_for_approval local_http = ApprovalPrincipal.local_http
principal_for_approval quick_tunnel = ApprovalPrincipal.quick_tunnel
principal_for_approval (oauth client_id subject _) = ApprovalPrincipal.oauth client_id subject

abbrev pub approval_principal : RequestAccess → ApprovalPrincipal
approval_principal access = principal_for_approval access.principal

unfoldable pub oauth_scope_for_capability : Capability → Scope
oauth_scope_for_capability Capability.system_read = machine_read
oauth_scope_for_capability Capability.files_read = Scope.files_read
oauth_scope_for_capability Capability.files_write = Scope.files_write
oauth_scope_for_capability Capability.shell_exec = Scope.shell_exec
oauth_scope_for_capability Capability.platform_native = Scope.platform_native
oauth_scope_for_capability Capability.browser_read = Scope.browser_read
oauth_scope_for_capability Capability.browser_act = Scope.browser_act
oauth_scope_for_capability Capability.desktop_control = Scope.desktop_control
oauth_scope_for_capability Capability.admin_exec = Scope.admin_exec

unfoldable pub oauth_scopes_allow_capability : List Scope → Capability → Bool
unfolding any oauth_scope_for_capability
oauth_scopes_allow_capability scopes capability =
    any (λ scope. scope == oauth_scope_for_capability capability) scopes

unfoldable pub tool_capabilities : List (String × Capability)
tool_capabilities =
    ("machine_info", Capability.system_read)
    ∷ ("fs_list", Capability.files_read)
    ∷ ("fs_read", Capability.files_read)
    ∷ ("fs_search", Capability.files_read)
    ∷ ("fs_write", Capability.files_write)
    ∷ ("fs_patch", Capability.files_write)
    ∷ ("fs_move", Capability.files_write)
    ∷ ("fs_delete", Capability.files_write)
    ∷ ("shell_exec", Capability.shell_exec)
    ∷ ("admin_exec", Capability.admin_exec)
    ∷ ("desktop_list_windows", Capability.desktop_control)
    ∷ ("desktop_focus_window", Capability.desktop_control)
    ∷ ("desktop_screenshot", Capability.desktop_control)
    ∷ ("desktop_click", Capability.desktop_control)
    ∷ ("desktop_type", Capability.desktop_control)
    ∷ ("desktop_key", Capability.desktop_control)
    ∷ ("macos_applescript", Capability.platform_native)
    ∷ ("windows_powershell", Capability.platform_native)
    ∷ ("linux_dbus_call", Capability.platform_native)
    ∷ ("browser_open", Capability.browser_act)
    ∷ ("browser_navigate", Capability.browser_act)
    ∷ ("browser_get_url", Capability.browser_read)
    ∷ ("browser_get_text", Capability.browser_read)
    ∷ ("browser_snapshot", Capability.browser_read)
    ∷ ("browser_click", Capability.browser_act)
    ∷ ("browser_type", Capability.browser_act)
    ∷ ("browser_press", Capability.browser_act)
    ∷ ("browser_screenshot", Capability.browser_read)
    ∷ ("browser_evaluate", Capability.browser_act)
    ∷ ("browser_close", Capability.browser_act)
    ∷ ("browser_profile_info", Capability.browser_read)
    ∷ []

-- The caller's part of `request_allows_tool`; stdio has no `RequestAccess`.
abbrev pub access_allows : String → Option RequestAccess → Capability → Bool
access_allows connector_id none capability = true
access_allows connector_id (some access) capability =
    str_eq access.connector_id connector_id && elim access.principal [
      | oauth _ _ scopes ↦ oauth_scopes_allow_capability scopes capability
      | _ ↦ true
    ]

module _ (urls : UrlApi) where
  open urls use {Url}

  -- `connector(id)` of the loaded file, and the check that it is enabled; `none` is a file that
  -- does not load.
  unfoldable pub load_enabled_connector :
      Option (List (ConnectorConfig Url)) → String → Option (ConnectorConfig Url)
  unfolding find
  load_enabled_connector none connector_id = none
  load_enabled_connector (some connectors) connector_id =
      elim (find (λ (connector : ConnectorConfig Url). str_eq connector.id connector_id)
        connectors) [
          | none ↦ none
          | some connector ↦ if connector.enabled then some connector else none
        ]

  -- The local policy, then the caller.
  abbrev pub connector_allows :
      String → Option RequestAccess → String → Capability → Option (ConnectorConfig Url) → Bool
  connector_allows connector_id access tool_name capability none = false
  connector_allows connector_id access tool_name capability (some connector) =
      not (mode_beq (evaluate urls connector tool_name capability).mode PolicyMode.deny)
      && access_allows connector_id access capability

  abbrev pub tool_allows :
      String
      → Option (List (ConnectorConfig Url))
      → Option RequestAccess
      → String
      → Option Capability
      → Bool
  tool_allows connector_id config access tool_name none = false
  tool_allows connector_id config access tool_name (some capability) =
      connector_allows connector_id access tool_name capability
        (load_enabled_connector config connector_id)

  unfoldable pub request_allows_tool :
      String → Option (List (ConnectorConfig Url)) → Option RequestAccess → String → Bool
  request_allows_tool connector_id config access tool_name =
      tool_allows connector_id config access tool_name (get tool_name tool_capabilities)
