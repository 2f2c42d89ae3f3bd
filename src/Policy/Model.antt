-- ===== src/Policy/Model.antt =====
-- The data of policy.rs, and what the engine reads of `ConnectorConfig` in config.rs. A command is
-- a list of code points and a path the list of its components; a URL belongs to the `url` crate.
use run_on_mine.Prelude.{ℕ, String, Bool, List, Option}

pub data Capability : Type 0 where
  system_read files_read files_write shell_exec browser_read browser_act : Capability
  desktop_control platform_native admin_exec : Capability

unfoldable pub Capability-discrete : Discrete Capability
Capability-discrete = hlevel

pub data PolicyMode : Type 0 where
  deny ask allow : PolicyMode

unfoldable pub PolicyMode-discrete : Discrete PolicyMode
PolicyMode-discrete = hlevel

pub data PolicyPreset : Type 0 where
  safe developer full custom : PolicyPreset

pub data ConnectorKind : Type 0 where
  local_stdio local_http cloudflare_quick cloudflare_oauth open_ai_tunnel : ConnectorKind

abbrev pub Command : Type 0
Command = List ℕ

abbrev pub FilePath : Type 0
FilePath = List String

-- The accessors of `url::Url` that the engine calls.
pub record UrlApi : Type 1 where
  pub Url : Type 0
  pub scheme : Url → String
  pub host_str : Url → Option String
  pub port_or_known_default : Url → Option ℕ

pub data PrincipalMatcher : Type 0 where
  any : PrincipalMatcher
  local : PrincipalMatcher
  oauth_client : String → PrincipalMatcher
  oauth_subject : String → PrincipalMatcher

pub data PrincipalContext : Type 0 where
  local : PrincipalContext
  oauth : String → String → PrincipalContext

module _ (Url : Type 0) where
  pub data ResourceMatcher : Type 0 where
    any : ResourceMatcher
    filesystem_prefix : FilePath → ResourceMatcher
    browser_origin : Url → ResourceMatcher
    executable : FilePath → ResourceMatcher
    command_prefix : Command → ResourceMatcher

  pub data ResourceContext : Type 0 where
    nothing : ResourceContext
    filesystem : FilePath → ResourceContext
    browser : Url → ResourceContext
    executable : FilePath → ResourceContext
    command : Command → ResourceContext

  pub record PolicyRule : Type 0 where
    pub mode : PolicyMode
    pub principal : PrincipalMatcher
    pub resource : ResourceMatcher
    pub tool : Option String
    pub capability : Option Capability

  pub record PolicyContext : Type 0 where
    pub principal : PrincipalContext
    pub resource : ResourceContext

  -- The fields that select a policy; the tunnel and OAuth settings are not read by the engine.
  pub record ConnectorConfig : Type 0 where
    pub id : String
    pub name : String
    pub kind : ConnectorKind
    pub enabled : Bool
    pub policy_preset : PolicyPreset
    pub pack_overrides : List (Capability × PolicyMode)
    pub tool_overrides : List (String × PolicyMode)
    pub policy_rules : List PolicyRule

pub data DecisionSource : Type 0 where
  resource_rule tool_override pack_override preset default_deny : DecisionSource
  remote_safety_ceiling : DecisionSource

pub record PolicyDecision : Type 0 where
  pub mode : PolicyMode
  pub source : DecisionSource
