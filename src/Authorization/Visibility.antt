-- ===== src/Authorization/Visibility.antt =====
-- The tools that `request_allows_tool` of mcp/server.rs shows to an OAuth client.
use run_on_mine.Prelude.{
  ◌≡◌, ◌≢◌, refl, String, eq_iff, true, Option, none, some, List, [], ◌∷◌, any, arith,
}
use run_on_mine.Prelude.Eq.{◌==◌, string_eq}
use run_on_mine.Prelude.Members.{In}
use run_on_mine.Policy.Model.{Capability, PolicyMode, UrlApi, ConnectorConfig}
use run_on_mine.Policy.Engine.{evaluate, get}
use run_on_mine.Authorization.Access.{
  Scope, scope_eq, oauth, RequestAccess, oauth_scope_for_capability, oauth_scopes_allow_capability,
  tool_capabilities, load_enabled_connector, connector_allows, tool_allows, request_allows_tool,
}

any-In_scope :
    (scope : Scope) (scopes : List Scope) → any (λ s. s == scope) scopes ≡ true → In scope scopes
unfolding any
any-In_scope scope [] h = cc
any-In_scope scope (s ∷ scopes) h =
    ground (arith, scope_eq.beq_iff s scope, any-In_scope scope scopes)

granted_scope :
    (scopes : List Scope) (capability : Capability)
    → oauth_scopes_allow_capability scopes capability ≡ true
    → In (oauth_scope_for_capability capability) scopes
unfolding oauth_scopes_allow_capability
granted_scope scopes capability h = any-In_scope (oauth_scope_for_capability capability) scopes h

module _ (urls : UrlApi) (connector_id : String) (access_id client_id subject tool_name : String)
    (scopes : List Scope) where
  abbrev pub client : Option RequestAccess
  client = some (record { connector_id = access_id; principal = oauth client_id subject scopes })

  -- What a tool that a client sees has.
  pub record IsVisible (config : Option (List (ConnectorConfig urls.Url))) : Type 0 where
    pub capability : Capability
    pub listed : get tool_name tool_capabilities ≡ some capability
    pub connector : ConnectorConfig urls.Url
    pub loaded : load_enabled_connector urls config connector_id ≡ some connector
    pub undenied : (evaluate urls connector tool_name capability).mode ≢ PolicyMode.deny
    pub same_connector : access_id ≡ connector_id
    pub in_scope : In (oauth_scope_for_capability capability) scopes

  connector-IsVisible :
      (config : Option (List (ConnectorConfig urls.Url))) (capability : Capability)
      (loaded : Option (ConnectorConfig urls.Url))
      → get tool_name tool_capabilities ≡ some capability
      → load_enabled_connector urls config connector_id ≡ loaded
      → connector_allows urls connector_id client tool_name capability loaded ≡ true
      → IsVisible config
  connector-IsVisible config capability none l e h = cc
  connector-IsVisible config capability (some connector) l e h = record {
    capability = capability;
    listed = l;
    connector = connector;
    loaded = e;
    undenied = λ d. ground arith;
    same_connector = ground (arith, eq_iff access_id connector_id);
    in_scope = granted_scope scopes capability (ground arith);
  }

  tool-IsVisible :
      (config : Option (List (ConnectorConfig urls.Url))) (listed : Option Capability)
      → get tool_name tool_capabilities ≡ listed
      → tool_allows urls connector_id config client tool_name listed ≡ true
      → IsVisible config
  tool-IsVisible config none l h = cc
  tool-IsVisible config (some capability) l h =
      connector-IsVisible config capability (load_enabled_connector urls config connector_id) l refl
        h

  -- A tool that an OAuth client sees stands in the table of tools with a capability, its connector is
  -- configured and enabled and does not deny that capability, the client came through that
  -- connector, and the scope of the capability is among the client's scopes.
  pub request_allows_tool-IsVisible :
      (config : Option (List (ConnectorConfig urls.Url)))
      → request_allows_tool urls connector_id config client tool_name ≡ true
      → IsVisible config
  unfolding request_allows_tool
  request_allows_tool-IsVisible config h =
      tool-IsVisible config (get tool_name tool_capabilities) refl h
