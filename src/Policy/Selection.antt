-- ===== src/Policy/Selection.antt =====
-- Which rule `matching_rule` selects.
use run_on_mine.Prelude.{
  ℕ, zero, suc, ◌+◌, ◌≡◌, refl, inl, inr, Bool, true, false, String, Option, none, some, List, [],
  ◌∷◌, filter, arith, Bool-cases, some-injective, ◌∙◌, subst, sym,
}
use run_on_mine.Prelude.Members.{In, In-filter, In-of-filter, get_elem?}
use run_on_mine.Policy.Model.{
  Capability, UrlApi, PolicyRule, PolicyContext, ConnectorConfig, resource_rule, PolicyDecision,
}
use run_on_mine.Policy.Matching.{rule_matches}
use run_on_mine.Policy.Engine.{
  Rank, rank_le, enumerate, max_from, max_by_key, rule_rank, rule_decision, matching_rule,
}

rank_le_refl : (a : Rank) → rank_le a a ≡ true
unfolding rank_le
rank_le_refl a = ground arith

rank_le_trans : (a b c : Rank) → rank_le a b ≡ true → rank_le b c ≡ true → rank_le a c ≡ true
unfolding rank_le
rank_le_trans a b c h k = ground arith

rank_le_total : (a b : Rank) → rank_le a b ≡ false → rank_le b a ≡ true
unfolding rank_le
rank_le_total a b h = ground arith

suc_add : (n i : ℕ) → n + suc i ≡ suc n + i
suc_add n i = omega arith

zero_add : (n : ℕ) → 0 + n ≡ n
zero_add n = omega arith

module _ {A : Type 0} where
  enumerate-In :
      (n : ℕ) (xs : List A) (i : ℕ) (a : A)
      → get_elem? xs i ≡ some a
      → In (n + i, a) (enumerate n xs)
  unfolding enumerate
  enumerate-In n [] i a h = cc
  enumerate-In n (x ∷ xs) zero a h = inl (ground arith)
  enumerate-In n (x ∷ xs) (suc i) a h = inr (
      subst (λ t. In (t, a) (enumerate (suc n) xs)) (sym (suc_add n i))
        (enumerate-In (suc n) xs i a h))

  In-enumerate :
      (n : ℕ) (xs : List A) (i : ℕ) (a : A)
      → In (i, a) (enumerate n xs)
      → (k : ℕ) × (i ≡ n + k) × (get_elem? xs k ≡ some a)
  unfolding enumerate
  In-enumerate n [] i a m = absurd m
  In-enumerate n (x ∷ xs) i a (inl e) = (0, ground arith, ground arith)
  In-enumerate n (x ∷ xs) i a (inr m) =
      let (k, p, h) = In-enumerate (suc n) xs i a m in (suc k, omega arith, h)

module _ {A : Type 0} (key : A → Rank) where
  max_from-In : (best : A) (xs : List A) → In (max_from key best xs) (best ∷ xs)
  unfolding max_from
  max_from-In best [] = inl refl
  max_from-In best (x ∷ xs) = ground (arith, max_from-In best xs, max_from-In x xs)

  through :
      (best x : A) (xs : List A) (r : Rank)
      → ((a : A) → In a (x ∷ xs) → rank_le (key a) r ≡ true)
      → rank_le (key best) (key x) ≡ true
      → (a : A) → In a (best ∷ x ∷ xs)
      → rank_le (key a) r ≡ true
  through best x xs r bound t a (inl e) =
      rw e (rank_le_trans (key best) (key x) r t (bound x (inl refl)))
  through best x xs r bound t a (inr m) = bound a m

  past :
      (best x : A) (xs : List A) (r : Rank)
      → ((a : A) → In a (best ∷ xs) → rank_le (key a) r ≡ true)
      → rank_le (key best) (key x) ≡ false
      → (a : A) → In a (best ∷ x ∷ xs)
      → rank_le (key a) r ≡ true
  past best x xs r bound t a (inl e) = bound a (inl e)
  past best x xs r bound t a (inr (inl e)) = rw e (
      rank_le_trans (key x) (key best) r (rank_le_total (key best) (key x) t)
        (bound best (inl refl)))
  past best x xs r bound t a (inr (inr m)) = bound a (inr m)

  max_from-upper :
      (best : A) (xs : List A) (a : A)
      → In a (best ∷ xs)
      → rank_le (key a) (key (max_from key best xs)) ≡ true
  unfolding max_from
  max_from-upper best [] a m = ground (arith, rank_le_refl (key best))
  max_from-upper best (x ∷ xs) a m = elim (Bool-cases (rank_le (key best) (key x))) [
    | inl t ↦ rw t (through best x xs (key (max_from key x xs)) (max_from-upper x xs) t a m)
    | inr t ↦ rw t (past best x xs (key (max_from key best xs)) (max_from-upper best xs) t a m)
  ]

  max_by_key-some :
      (xs : List A) (m : A)
      → max_by_key key xs ≡ some m
      → In m xs × ((a : A) → In a xs → rank_le (key a) (key m) ≡ true)
  unfolding max_by_key
  max_by_key-some [] m h = cc
  max_by_key-some (x ∷ xs) m h =
      subst (λ z. In z (x ∷ xs) × ((a : A) → In a (x ∷ xs) → rank_le (key a) (key z) ≡ true))
        (some-injective _ _ h) (max_from-In x xs, max_from-upper x xs)

  max_by_key-none : (xs : List A) (a : A) → max_by_key key xs ≡ none → ¬ In a xs
  unfolding max_by_key
  max_by_key-none [] a h m = m
  max_by_key-none (x ∷ xs) a h m = cc

abbrev pub RuleAt : (urls : UrlApi) → ConnectorConfig urls.Url → ℕ → PolicyRule urls.Url → Type 0
RuleAt urls connector index rule = get_elem? connector.policy_rules index ≡ some rule

module _ (urls : UrlApi) (connector : ConnectorConfig urls.Url) (tool_name : String)
    (capability : Capability) (context : PolicyContext urls.Url) where
  abbrev pub Matches : PolicyRule urls.Url → Type 0
  Matches rule = rule_matches urls tool_name capability context rule ≡ true

  -- The rule at `index` matches, and no matching rule has a greater rank.
  pub record IsSelected (index : ℕ) (rule : PolicyRule urls.Url) : Type 0 where
    pub stored : RuleAt urls connector index rule
    pub matching : Matches rule
    pub best :
        (j : ℕ) (other : PolicyRule urls.Url)
        → RuleAt urls connector j other
        → Matches other
        → rank_le (rule_rank urls (j, other)) (rule_rank urls (index, rule)) ≡ true

  abbrev test : ℕ × PolicyRule urls.Url → Bool
  test entry = rule_matches urls tool_name capability context entry.1

  abbrev candidates : List (ℕ × PolicyRule urls.Url)
  candidates = filter test (enumerate 0 connector.policy_rules)

  candidate :
      (j : ℕ) (other : PolicyRule urls.Url)
      → RuleAt urls connector j other
      → Matches other
      → In (j, other) candidates
  candidate j other s m =
      In-filter test (enumerate 0 connector.policy_rules) (j, other)
        (subst (λ n. In (n, other) (enumerate 0 connector.policy_rules)) (zero_add j)
          (enumerate-In 0 connector.policy_rules j other s))
        m

  chosen :
      (entry : ℕ × PolicyRule urls.Url)
      → max_by_key (rule_rank urls) candidates ≡ some entry
      → IsSelected entry.0 entry.1
  chosen (i, rule) h =
      let (m, top) = max_by_key-some (rule_rank urls) candidates (i, rule) h in
      let (e, matching) = In-of-filter test (enumerate 0 connector.policy_rules) (i, rule) m in
      let (k, p, stored) = In-enumerate 0 connector.policy_rules i rule e in
      record {
        stored = subst (λ n. RuleAt urls connector n rule) (sym (p ∙ zero_add k)) stored;
        matching = matching;
        best = λ j other s h'. top (j, other) (candidate j other s h');
      }

  decided :
      (o : Option (ℕ × PolicyRule urls.Url)) (decision : PolicyDecision)
      → rule_decision urls o ≡ some decision
      → (entry : ℕ × PolicyRule urls.Url) × (o ≡ some entry)
        × (decision ≡ record { mode = entry.1.mode; source = resource_rule })
  decided none decision h = cc
  decided (some entry) decision h = (entry, refl, sym (some-injective _ _ h))

  pub matching_rule-IsSelected :
      (decision : PolicyDecision)
      → matching_rule urls connector tool_name capability context ≡ some decision
      → (index : ℕ) × (rule : PolicyRule urls.Url) × IsSelected index rule
        × (decision ≡ record { mode = rule.mode; source = resource_rule })
  unfolding matching_rule
  matching_rule-IsSelected decision h =
      let (entry, e, d) = decided (max_by_key (rule_rank urls) candidates) decision h in
      (entry.0, entry.1, chosen entry e, d)

  none_chosen : (o : Option (ℕ × PolicyRule urls.Url)) → rule_decision urls o ≡ none → o ≡ none
  none_chosen none h = refl
  none_chosen (some entry) h = cc

  -- No rule decides only where no stored rule matches.
  pub matching_rule-none :
      (j : ℕ) (other : PolicyRule urls.Url)
      → matching_rule urls connector tool_name capability context ≡ none
      → RuleAt urls connector j other
      → ¬ Matches other
  unfolding matching_rule
  matching_rule-none j other h s m =
      max_by_key-none (rule_rank urls) candidates (j, other)
        (none_chosen (max_by_key (rule_rank urls) candidates) h) (candidate j other s m)
