-- ===== src/Policy/Matching.antt =====
-- Which rules of a connector match a request: the matchers of policy.rs.
use run_on_mine.Prelude.{
  ℕ, String, Bool, true, false, ◌&&◌, ◌||◌, Option, none, some, [], ◌∷◌, any, leb, if◌then◌else◌,
}
use run_on_mine.Prelude.Eq.{Eq, ◌==◌, nat_eq, string_eq, discrete_eq}
use run_on_mine.Prelude.Seq.{last, list_beq, strip_prefix, starts_with, contains}
use run_on_mine.Policy.Model.{
  Capability, Capability-discrete, Command, UrlApi, PrincipalMatcher, PrincipalContext,
  ResourceMatcher, ResourceContext, PolicyRule, PolicyContext,
}

instance abbrev pub capability_eq : Eq Capability
capability_eq = discrete_eq Capability-discrete

-- `Option::is_none_or(|item| item == wanted)`
abbrev pub is_none_or_eq {ℓ} : {A : Type ℓ} ⦃e : Eq A⦄ → Option A → A → Bool
is_none_or_eq none wanted = true
is_none_or_eq (some item) wanted = item == wanted

abbrev pub option_beq {ℓ} : {A : Type ℓ} ⦃e : Eq A⦄ → Option A → Option A → Bool
option_beq none none = true
option_beq (some a) (some b) = a == b
option_beq _ _ = false

-- `char::is_whitespace`: the code points with the property White_Space.
unfoldable pub is_whitespace : ℕ → Bool
is_whitespace c =
    leb 9 c && leb c 13
    || c == 32
    || c == 0x85
    || c == 0xa0
    || c == 0x1680
    || leb 0x2000 c && leb c 0x200a
    || c == 0x2028
    || c == 0x2029
    || c == 0x202f
    || c == 0x205f
    || c == 0x3000

-- `;` `|` `&` `<` `>` the backquote, line feed and carriage return
unfoldable pub is_shell_control : ℕ → Bool
is_shell_control c =
    c == b';' || c == b'|' || c == b'&' || c == b'<' || c == b'>' || c == 96 || c == 10 || c == 13

unfoldable pub contains_shell_control_syntax : Command → Bool
unfolding is_shell_control any contains
contains_shell_control_syntax command =
    any is_shell_control command || contains (b'$' ∷ b'(' ∷ []) command

-- `is_some_and(char::is_whitespace)`
abbrev pub is_space : Option ℕ → Bool
is_space none = false
is_space (some c) = is_whitespace c

abbrev pub first : Command → Option ℕ
first [] = none
first (c ∷ _) = some c

abbrev pub is_empty : Command → Bool
is_empty [] = true
is_empty (_ ∷ _) = false

abbrev pub boundary : Option Command → Bool
boundary none = false
boundary (some remainder) = is_space (first remainder)

unfoldable pub command_prefix_matches : Command → Command → Bool
command_prefix_matches prefix actual =
    if is_empty prefix
      || contains_shell_control_syntax prefix
      || contains_shell_control_syntax actual
    then false
    else if is_space (last prefix)
    then starts_with prefix actual
    else list_beq actual prefix || boundary (strip_prefix prefix actual)

unfoldable pub principal_matches : PrincipalMatcher → PrincipalContext → Bool
principal_matches PrincipalMatcher.any _ = true
principal_matches PrincipalMatcher.local PrincipalContext.local = true
principal_matches (PrincipalMatcher.oauth_client client_id) (PrincipalContext.oauth actual _) =
    client_id == actual
principal_matches (PrincipalMatcher.oauth_subject subject) (PrincipalContext.oauth _ actual) =
    subject == actual
principal_matches _ _ = false

module _ (urls : UrlApi) where
  open urls use {Url, scheme, host_str, port_or_known_default}

  unfoldable pub same_origin : Url → Url → Bool
  same_origin left right =
      scheme left == scheme right
      && option_beq (host_str left) (host_str right)
      && option_beq (port_or_known_default left) (port_or_known_default right)

  unfoldable pub resource_matches : ResourceMatcher Url → ResourceContext Url → Bool
  resource_matches ResourceMatcher.any _ = true
  resource_matches (ResourceMatcher.filesystem_prefix path) (ResourceContext.filesystem actual) =
      list_beq actual path || starts_with path actual
  resource_matches (ResourceMatcher.browser_origin origin) (ResourceContext.browser actual) =
      same_origin origin actual
  resource_matches (ResourceMatcher.executable path) (ResourceContext.executable actual) =
      list_beq path actual
  resource_matches (ResourceMatcher.command_prefix prefix) (ResourceContext.command actual) =
      command_prefix_matches prefix actual
  resource_matches _ _ = false

  -- The filter of `matching_rule`.
  unfoldable pub rule_matches : String → Capability → PolicyContext Url → PolicyRule Url → Bool
  rule_matches tool_name capability context rule =
      is_none_or_eq rule.tool tool_name
      && is_none_or_eq rule.capability capability
      && principal_matches rule.principal context.principal
      && resource_matches rule.resource context.resource
