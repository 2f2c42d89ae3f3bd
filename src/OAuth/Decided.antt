-- ===== src/OAuth/Decided.antt =====
-- The owner's consent: it is spent by the decision, and only an approval leaves a code.
use run_on_mine.Prelude.{
  ℕ, ◌≡◌, refl, sym, ap, ◌∙◌, subst, String, Bool, true, false, not, ◌||◌, Option, none, some, List,
  str_eq, &&-left, &&-right, [], ◌∷◌, ◌++◌, any, filter, find, leb, ltb, ok, err, ok-injective,
  arith, if◌then◌else◌,
}
use run_on_mine.Prelude.Eq.{◌==◌, nat_eq, string_eq}
use run_on_mine.Prelude.Seq.{list_beq, list_beq_iff}
use run_on_mine.Prelude.Members.{In, find-In, In-of-filter}
use run_on_mine.OAuth.Tables.{
  SecretHash, OAuthApi, PendingConsent, CodeRow, OAuthTables, has_consent, has_code, has_client,
  database, namespace_hash,
}
use run_on_mine.OAuth.Tokens.{Outcome}
use run_on_mine.OAuth.Consents.{taken, take_consent, put_authorization_code}
use run_on_mine.OAuth.Guards.{guard-ok}
use run_on_mine.OAuth.Hashing.{
  OAuthErrorCode, invalid_request, consent_csrf, ServiceApi, hash, text_length,
}
use run_on_mine.OAuth.Requests.{OAuthService, Reply, ConsentDecision, allow, deny}
use run_on_mine.OAuth.Consenting.{code_of, stored, decide_consent, after_take, submit_consent}

-- The consent that was asked for, unexpired, and what its taking leaves.
pub record Taken (id : String) (digest : SecretHash) (now : ℕ) (tables : OAuthTables)
    (row : PendingConsent) (after : OAuthTables) : Type 0 where
  pub stood : In row tables.consents
  pub named : has_consent id digest row ≡ true
  pub unexpired : leb row.expires_at now ≡ false
  pub gone : any (has_consent id digest) after.consents ≡ false
  pub codes : after.codes ≡ tables.codes

has_consent-named :
    (id : String) (digest : SecretHash) (row : PendingConsent)
    → has_consent id digest row ≡ true
    → (row.id ≡ id) × (row.csrf_hash ≡ digest)
has_consent-named id digest row h = (
  (string_eq.beq_iff row.id id).0 (&&-left (str_eq row.id id) (list_beq row.csrf_hash digest) h),
  (list_beq_iff row.csrf_hash digest).0
      (&&-right (str_eq row.id id) (list_beq row.csrf_hash digest) h),
)

any-filter-not :
    {A : Type 0} (p : A → Bool) (xs : List A) → any p (filter (λ x. not (p x)) xs) ≡ false
unfolding any filter
any-filter-not p [] = refl
any-filter-not p (x ∷ xs) = ground (arith, any-filter-not p xs)

taken-Taken :
    (id : String) (digest original : SecretHash) (now : ℕ) (tables : OAuthTables)
    (found : Option PendingConsent) (consent : PendingConsent) (after : OAuthTables)
    → find (has_consent id digest) (filter (λ c. not (leb c.expires_at now)) tables.consents)
      ≡ found
    → taken id digest original tables
        (record tables { consents = filter (λ c. not (leb c.expires_at now)) tables.consents })
        found
      ≡ (ok consent, after)
    → (row : PendingConsent) × (consent ≡ record row { csrf_hash = original })
      × Taken id digest now tables row after
taken-Taken id digest original now tables none consent after f h = cc
taken-Taken id digest original now tables (some row) consent after f h =
    let live = λ (c : PendingConsent). not (leb c.expires_at now) in
    let (member, named) = find-In (has_consent id digest) (filter live tables.consents) row f in
    let (stood, fresh) = In-of-filter live tables.consents row member in
    (
      row,
      sym (ok-injective (record row { csrf_hash = original }) consent (ap (λ o. o.0) h)),
      subst (Taken id digest now tables row) (ap (λ o. o.1) h) (record {
        stood = stood;
        named = named;
        unexpired = ground arith;
        gone = any-filter-not (has_consent id digest) (filter live tables.consents);
        codes = refl;
      }),
    )

put_authorization_code-ok :
    (api : OAuthApi) (connector_id : String) (code : CodeRow) (tables after : OAuthTables)
    (done : Unit {0})
    → put_authorization_code api connector_id code tables ≡ (ok done, after)
    → after ≡ record tables {
      codes =
          tables.codes
          ++ (record code {
            code_hash = namespace_hash api connector_id code.code_hash;
            used = false;
          })
            ∷ [];
    }
unfolding put_authorization_code
put_authorization_code-ok api connector_id code tables after done h =
    let digest = namespace_hash api connector_id code.code_hash in
    let (_, rest) =
      guard-ok (not (has_client code.client_id tables) || any (has_code digest) tables.codes)
        database tables _ done after h in
    sym (ap (λ o. o.1) rest)

pub past :
    (b : Bool) (e : OAuthErrorCode) (before : OAuthTables) (rest : Reply String) (reply : String)
    (after : OAuthTables)
    → ◌≡◌ {A = Reply String} (if b then (err e, before) else rest) (ok reply, after)
    → rest ≡ (ok reply, after)
past true e before rest reply after h = cc
past false e before rest reply after h = h

module _ (api : ServiceApi) (self : OAuthService) where
  -- The code that an approval stores for a consent.
  abbrev pub approved_code : PendingConsent → String → ℕ → CodeRow
  approved_code consent code now =
      let row = code_of api self consent code now in
      record row { code_hash = namespace_hash api.store self.connector_id row.code_hash }

  -- A denial adds no code; an approval adds the one that was drawn.
  abbrev pub CodesAfter :
      ConsentDecision → Option String → ℕ → PendingConsent → OAuthTables → OAuthTables → Type 0
  CodesAfter deny code now row tables after = after.codes ≡ tables.codes
  CodesAfter allow code now row tables after =
      (drawn : String) × (code ≡ some drawn)
      × (after.codes ≡ tables.codes ++ approved_code row drawn now ∷ [])

  pub stored-ok :
      (redirect : String) (outcome : Outcome (Unit {0})) (reply : String) (after : OAuthTables)
      → stored api self redirect outcome ≡ (ok reply, after)
      → (done : Unit {0}) × (outcome ≡ (ok done, after))
  stored-ok redirect (err e, tables) reply after h = cc
  stored-ok redirect (ok done, tables) reply after h =
      (done, ap (λ t. (ok done, t)) (ap (λ o. o.1) h))

  decide_consent-CodesAfter :
      (decision : ConsentDecision) (code : Option String) (now : ℕ) (row : PendingConsent)
      (original : SecretHash) (tables : OAuthTables) (reply : String) (after : OAuthTables)
      → decide_consent api self decision code now (record row { csrf_hash = original }) tables
        ≡ (ok reply, after)
      → (after.consents ≡ tables.consents) × CodesAfter decision code now row tables after
  decide_consent-CodesAfter deny code now row original tables reply after h =
      (ap (λ o. o.1.consents) (sym h), ap (λ o. o.1.codes) (sym h))
  decide_consent-CodesAfter allow none now row original tables reply after h = cc
  decide_consent-CodesAfter allow (some drawn) now row original tables reply after h =
      let (done, put) = stored-ok _ _ reply after h in
      let left =
        put_authorization_code-ok api.store self.connector_id (code_of api self row drawn now)
          tables after done put in
      (ap (λ t. t.consents) left, (drawn, refl, ap (λ t. t.codes) left))

  CodesAfter-codes :
      (decision : ConsentDecision) (code : Option String) (now : ℕ) (row : PendingConsent)
      (mid tables after : OAuthTables)
      → mid.codes ≡ tables.codes
      → CodesAfter decision code now row mid after
      → CodesAfter decision code now row tables after
  CodesAfter-codes deny code now row mid tables after e h = h ∙ e
  CodesAfter-codes allow code now row mid tables after e (drawn, same, left) =
      (drawn, same, left ∙ ap (λ codes. codes ++ approved_code row drawn now ∷ []) e)

  after_take-ok :
      (decision : ConsentDecision) (code : Option String) (now : ℕ)
      (outcome : Outcome PendingConsent) (reply : String) (after : OAuthTables)
      → after_take api self decision code now outcome ≡ (ok reply, after)
      → (consent : PendingConsent) × (mid : OAuthTables) × (outcome ≡ (ok consent, mid))
        × (decide_consent api self decision code now consent mid ≡ (ok reply, after))
  after_take-ok decision code now (err e, mid) reply after h = cc
  after_take-ok decision code now (ok consent, mid) reply after h = (consent, mid, refl, h)

  -- A decision that is answered with a redirect was about an unexpired consent of that identifier,
  -- stored under the hash of that secret. The consent is gone afterwards; a denial leaves the codes as they were, and an
  -- approval adds one unused code, for the consent's client, redirect, scopes, challenge and subject.
  pub submit_consent-CodesAfter :
      (id csrf : String) (decision : ConsentDecision) (code : Option String) (taken_at now : ℕ)
      (tables : OAuthTables) (reply : String) (after : OAuthTables)
      → submit_consent api self id csrf decision code taken_at now tables ≡ (ok reply, after)
      → (row : PendingConsent) × In row tables.consents
        × (row.id ≡ id)
        × (row.csrf_hash
            ≡ namespace_hash api.store self.connector_id (hash api self.key consent_csrf csrf))
        × (leb row.expires_at taken_at ≡ false)
        × (any
              (has_consent id
                (namespace_hash api.store self.connector_id (hash api self.key consent_csrf csrf)))
              after.consents
            ≡ false)
        × CodesAfter decision code now row tables after
  unfolding submit_consent take_consent
  submit_consent-CodesAfter id csrf decision code taken_at now tables reply after h =
      let digest =
        namespace_hash api.store self.connector_id (hash api self.key consent_csrf csrf) in
      let original = hash api self.key consent_csrf csrf in
      let outcome = take_consent api.store self.connector_id id original taken_at tables in
      let (consent, mid, took, decided) = after_take-ok decision code now outcome reply after (
        past (text_length api csrf == 0 || ltb 1024 (text_length api csrf)) invalid_request tables
          (after_take api self decision code now outcome) reply after h) in
      let (row, same, left) =
        taken-Taken id digest original taken_at tables
          (find (has_consent id digest)
            (filter (λ c. not (leb c.expires_at taken_at)) tables.consents))
          consent mid refl took in
      let (kept, codes) = decide_consent-CodesAfter decision code now row original mid reply after (
        subst (λ c. decide_consent api self decision code now c mid ≡ (ok reply, after)) same
          decided) in
      (
        row,
        left.stood,
        (has_consent-named id digest row left.named).0,
        (has_consent-named id digest row left.named).1,
        left.unexpired,
        ap (any (has_consent id digest)) kept ∙ left.gone,
        CodesAfter-codes decision code now row mid tables after left.codes codes,
      )
