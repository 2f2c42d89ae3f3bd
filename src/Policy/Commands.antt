-- ===== src/Policy/Commands.antt =====
-- What the matchers of commands and paths accept.
use run_on_mine.Prelude.{
  ◌≡◌, refl, sym, subst, ◌∙◌, ap, ◌⊎◌, inl, inr, ◌↔◌, true, false, ◌||◌, some, [], ◌++◌, arith,
  Option-cases, append-nil,
}
use run_on_mine.Prelude.Eq.{nat_eq, string_eq}
use run_on_mine.Prelude.Seq.{
  last, list_beq, list_beq_iff, strip_prefix, strip_prefix-append, append-strip_prefix, starts_with,
}
use run_on_mine.Policy.Model.{Command, FilePath, UrlApi, ResourceMatcher, ResourceContext}
use run_on_mine.Policy.Matching.{
  contains_shell_control_syntax, is_space, first, is_empty, command_prefix_matches,
  resource_matches,
}

-- `actual` is the configured command or extends it at a word boundary, and neither holds syntax by
-- which a shell would run more than the one command.
pub record IsCommandOf (prefix actual : Command) : Type 0 where
  pub nonempty : is_empty prefix ≡ false
  pub plain_prefix : contains_shell_control_syntax prefix ≡ false
  pub plain_actual : contains_shell_control_syntax actual ≡ false
  pub rest : Command
  pub extends : actual ≡ prefix ++ rest
  pub at_boundary : (rest ≡ []) ⊎ ((is_space (first rest) ≡ true) ⊎ (is_space (last prefix) ≡ true))

extension :
    (prefix actual : Command)
    → starts_with prefix actual ≡ true
    → (r : Command) × (strip_prefix prefix actual ≡ some r)
unfolding starts_with
extension prefix actual h = ground arith

whole : (prefix actual : Command) → actual ≡ prefix → strip_prefix prefix actual ≡ some []
whole prefix actual e =
    subst (λ a. strip_prefix prefix a ≡ some []) (append-nil prefix ∙ sym e)
      (append-strip_prefix prefix [])

accepted :
    (prefix actual : Command)
    → command_prefix_matches prefix actual ≡ true
    → (is_empty prefix ≡ false)
      × (contains_shell_control_syntax prefix ≡ false)
      × (contains_shell_control_syntax actual ≡ false)
      × ((is_space (last prefix) ≡ true) × (starts_with prefix actual ≡ true)
          ⊎ ((list_beq actual prefix ≡ true)
              ⊎ ((r : Command) × (strip_prefix prefix actual ≡ some r)
                  × (is_space (first r) ≡ true))))
unfolding command_prefix_matches
accepted prefix actual h = ground arith

accepts :
    (prefix actual : Command)
    → command_prefix_matches prefix actual ≡ true
    → IsCommandOf prefix actual
accepts prefix actual h = build (accepted prefix actual h).3
  where
    commands :
        (r : Command)
        → strip_prefix prefix actual ≡ some r
        → (r ≡ []) ⊎ ((is_space (first r) ≡ true) ⊎ (is_space (last prefix) ≡ true))
        → IsCommandOf prefix actual
    commands r s b = record {
      nonempty = (accepted prefix actual h).0;
      plain_prefix = (accepted prefix actual h).1;
      plain_actual = (accepted prefix actual h).2;
      rest = r;
      extends = strip_prefix-append prefix actual r s;
      at_boundary = b;
    }

    build :
        (is_space (last prefix) ≡ true) × (starts_with prefix actual ≡ true)
          ⊎ ((list_beq actual prefix ≡ true)
              ⊎ ((r : Command) × (strip_prefix prefix actual ≡ some r)
                  × (is_space (first r) ≡ true)))
        → IsCommandOf prefix actual
    build (inl (lp, sw)) = let (r, s) = extension prefix actual sw in commands r s (inr (inr lp))
    build (inr (inl e)) =
        commands [] (whole prefix actual ((list_beq_iff actual prefix).0 e)) (inl refl)
    build (inr (inr (r, s, b))) = commands r s (inr (inl b))

rejects_none :
    (prefix actual : Command)
    → IsCommandOf prefix actual
    → command_prefix_matches prefix actual ≡ true
unfolding command_prefix_matches starts_with
rejects_none prefix actual c =
    let s : strip_prefix prefix actual ≡ some c.rest =
      subst (λ a. strip_prefix prefix a ≡ some c.rest) (sym c.extends)
        (append-strip_prefix prefix c.rest) in
    let w : c.rest ≡ [] → actual ≡ prefix =
      λ e. c.extends ∙ ap (λ r. prefix ++ r) e ∙ append-nil prefix in
    ground (arith, list_beq_iff actual prefix)

-- `command_prefix_matches` accepts exactly the command of the rule and its extensions at a word
-- boundary, with no shell control syntax in either.
pub command_prefix_matches_iff :
    (prefix actual : Command)
    → (command_prefix_matches prefix actual ≡ true) ↔ IsCommandOf prefix actual
command_prefix_matches_iff prefix actual = (accepts prefix actual, rejects_none prefix actual)

below :
    (path actual : FilePath)
    → (list_beq actual path || starts_with path actual) ≡ true
    → (rest : FilePath) × (actual ≡ path ++ rest)
unfolding starts_with
below path actual h = elim (Option-cases (strip_prefix path actual)) [
  | inl n ↦ ([], (list_beq_iff actual path).0 (ground arith) ∙ sym (append-nil path))
  | inr (r, s) ↦ (r, strip_prefix-append path actual r s)
]

-- A filesystem rule accepts exactly the paths at or below its own, component by component.
pub filesystem_prefix_iff :
    (urls : UrlApi) (path actual : FilePath)
    → (resource_matches urls
          (ResourceMatcher.filesystem_prefix path)
          (ResourceContext.filesystem actual)
        ≡ true)
      ↔ ((rest : FilePath) × (actual ≡ path ++ rest))
unfolding resource_matches starts_with
filesystem_prefix_iff urls path actual = (
  below path actual,
  λ e.
      let s : strip_prefix path actual ≡ some e.0 =
        subst (λ a. strip_prefix path a ≡ some e.0) (sym e.1) (append-strip_prefix path e.0) in
      ground arith,
)
