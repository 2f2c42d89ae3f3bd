-- ===== src/OAuth/Codes.antt =====
-- The exchange of an authorization code: what it needs, what it issues, and that it happens once.
use run_on_mine.Prelude.{
  ℕ, ◌≡◌, refl, sym, ap, subst, String, Bool, true, false, not, ◌&&◌, Option, none, some, List, [],
  ◌∷◌, ◌++◌, ◌<◌, ◌≤◌, length, all, find, update_where, count_where, arith, inl, inr, Bool-cases,
  ok, err, ◌==◌, if◌then◌else◌,
}
use run_on_mine.Prelude.Eq.{nat_eq, string_eq}
use run_on_mine.Prelude.Seq.{list_beq_iff}
use run_on_mine.Prelude.Members.{In, find-In}
use run_on_mine.OAuth.Tables.{
  SecretHash, ScopeSet, OAuthApi, invalid_grant, CodeRow, TokenPairDraft, OAuthTables, has_code,
  namespace_hash, namespace_token_pair,
}
use run_on_mine.OAuth.Guards.{guard-ok, not-false, commit-ok, insert_token_pair-ok}
use run_on_mine.OAuth.Tokens.{
  commit, token_pair, insert_token_pair, set_tokens, is_unreserved, verify_pkce, mark_used,
  code_serves, exchange_row, exchange_authorization_code,
}

abbrev pub is_unused : SecretHash → CodeRow → Bool
is_unused hash row = has_code hash row && not row.used

-- The tables with the code marked as used.
abbrev pub spend : SecretHash → OAuthTables → OAuthTables
spend hash tables = record tables { codes = update_where (is_unused hash) mark_used tables.codes }

find-spent :
    (hash : SecretHash) (rows : List CodeRow) (row : CodeRow)
    → find (has_code hash) rows ≡ some row
    → row.used ≡ false
    → find (has_code hash) (update_where (is_unused hash) mark_used rows) ≡ some (mark_used row)
unfolding find update_where
find-spent hash [] row h fresh = cc
find-spent hash (r ∷ rows) row h fresh = elim (Bool-cases (has_code hash r)) [
  | inl t ↦ ground arith
  | inr f ↦ ground (arith, find-spent hash rows row)
]

-- What an exchange that committed rests on, and what it leaves.
pub record Exchanged (api : OAuthApi) (hash : SecretHash) (client_id redirect_uri verifier : String)
    (tokens : TokenPairDraft) (family_id : String) (now : ℕ) (tables : OAuthTables) (row : CodeRow)
    (scopes : ScopeSet) (after : OAuthTables) : Type 0 where
  pub serves : code_serves api client_id redirect_uri verifier now row ≡ true
  pub same_scopes : row.scopes ≡ scopes
  pub leaves :
      after
      ≡ set_tokens
          (spend hash tables)
          (tables.tokens ++ token_pair family_id client_id row.subject row.scopes tokens now)

exchange_row-ok :
    (api : OAuthApi) (hash : SecretHash) (client_id redirect_uri verifier : String)
    (tokens : TokenPairDraft) (family_id : String) (now : ℕ) (tables : OAuthTables)
    (found : Option CodeRow) (scopes : ScopeSet) (after : OAuthTables)
    → exchange_row api hash client_id redirect_uri verifier tokens family_id now tables found
      ≡ (ok scopes, after)
    → (row : CodeRow) × (found ≡ some row)
      × Exchanged api hash client_id redirect_uri verifier tokens family_id now tables row scopes
          after
exchange_row-ok api hash client_id redirect_uri verifier tokens family_id now tables none scopes
      after h =
    cc
exchange_row-ok api hash client_id redirect_uri verifier tokens family_id now tables (some row)
      scopes after h =
    let inserting =
      insert_token_pair family_id client_id row.subject row.scopes tokens now (spend hash tables) in
    let whole = commit row.scopes tables inserting in
    let only = count_where (is_unused hash) tables.codes == 1 in
    let (serves, rest) =
      guard-ok (not (code_serves api client_id redirect_uri verifier now row)) invalid_grant tables
        (if not only then (err invalid_grant, tables) else whole) scopes after h in
    let (single, committed) = guard-ok (not only) invalid_grant tables whole scopes after rest in
    let (into, same) = commit-ok row.scopes tables inserting scopes after committed in
    (
      row,
      refl,
      record {
        serves = not-false serves;
        same_scopes = same;
        leaves =
            (insert_token_pair-ok family_id client_id row.subject row.scopes tokens now
              (spend hash tables) after into).0;
      },
    )

used-not-serves :
    (api : OAuthApi) (client_id redirect_uri verifier : String) (now : ℕ) (row : CodeRow)
    → code_serves api client_id redirect_uri verifier now (mark_used row) ≡ false
unfolding code_serves
used-not-serves api client_id redirect_uri verifier now row = refl

serves-unused :
    (api : OAuthApi) (client_id redirect_uri verifier : String) (now : ℕ) (row : CodeRow)
    → code_serves api client_id redirect_uri verifier now row ≡ true
    → row.used ≡ false
unfolding code_serves
serves-unused api client_id redirect_uri verifier now row h = ground arith

spent-found :
    (api : OAuthApi) (hash : SecretHash) (client_id redirect_uri verifier : String)
    (tokens : TokenPairDraft) (family_id : String) (now : ℕ) (tables : OAuthTables) (row : CodeRow)
    (scopes : ScopeSet) (after : OAuthTables)
    → find (has_code hash) tables.codes ≡ some row
    → Exchanged api hash client_id redirect_uri verifier tokens family_id now tables row scopes
        after
    → find (has_code hash) after.codes ≡ some (mark_used row)
spent-found api hash client_id redirect_uri verifier tokens family_id now tables row scopes after
      found done =
    subst (λ t. find (has_code hash) t.codes ≡ some (mark_used row)) (sym done.leaves)
      (find-spent hash tables.codes row found
        (serves-unused api client_id redirect_uri verifier now row done.serves))

-- What a code is exchanged for: its client, its redirect, and a verifier in the form that PKCE asks
-- for, whose SHA-256 hash is the challenge.
pub record Answers (api : OAuthApi) (client_id redirect_uri verifier : String) (now : ℕ)
    (row : CodeRow) : Type 0 where
  pub unused : row.used ≡ false
  pub unexpired : now < row.expires_at
  pub client : row.client_id ≡ client_id
  pub redirect : row.redirect_uri ≡ redirect_uri
  pub long : 43 ≤ length (api.as_bytes verifier)
  pub short : length (api.as_bytes verifier) ≤ 128
  pub plain : all is_unreserved (api.as_bytes verifier) ≡ true
  pub challenge :
      api.as_bytes (api.base64_url (api.sha256 (api.as_bytes verifier)))
      ≡ api.as_bytes row.code_challenge

serves-Answers :
    (api : OAuthApi) (client_id redirect_uri verifier : String) (now : ℕ) (row : CodeRow)
    → code_serves api client_id redirect_uri verifier now row ≡ true
    → Answers api client_id redirect_uri verifier now row
unfolding code_serves verify_pkce
serves-Answers api client_id redirect_uri verifier now row h = record {
  unused = ground arith;
  unexpired = ground arith;
  client = (string_eq.beq_iff row.client_id client_id).0 (ground arith);
  redirect = (string_eq.beq_iff row.redirect_uri redirect_uri).0 (ground arith);
  long = ground arith;
  short = ground arith;
  plain = ground arith;
  challenge =
      (list_beq_iff (api.as_bytes (api.base64_url (api.sha256 (api.as_bytes verifier))))
          (api.as_bytes row.code_challenge)).0
        (ground arith);
}

module _ (api : OAuthApi) where
  -- An authorization code is exchanged at most once: after an exchange that issued tokens, every
  -- later exchange of that code, by whatever client and verifier, is refused and changes nothing.
  pub exchange_authorization_code-once :
      (connector_id : String) (code : SecretHash) (client_id redirect_uri verifier : String)
      (tokens : TokenPairDraft) (family_id : String) (now : ℕ) (tables : OAuthTables)
      (scopes : ScopeSet) (after : OAuthTables)
      → exchange_authorization_code api connector_id code client_id redirect_uri verifier tokens
          family_id now tables
        ≡ (ok scopes, after)
      → (client redirect secret : String) (pair : TokenPairDraft) (family : String) (later : ℕ)
      → exchange_authorization_code api connector_id code client redirect secret pair family later
          after
        ≡ (err invalid_grant, after)
  unfolding exchange_authorization_code
  exchange_authorization_code-once connector_id code client_id redirect_uri verifier tokens
        family_id now tables scopes after h client redirect secret pair family later =
      let hash = namespace_hash api connector_id code in
      let (row, found, done) =
        exchange_row-ok api hash client_id redirect_uri verifier
          (namespace_token_pair api connector_id tokens) family_id now tables
          (find (has_code hash) tables.codes) scopes after h in
      rw (
        spent-found api hash client_id redirect_uri verifier
            (namespace_token_pair api connector_id tokens) family_id now tables row scopes after
            found done,
        used-not-serves api client redirect secret later row,
      )

  -- An exchange that issues tokens found a code of the connector that was unused and unexpired and
  -- was issued to this client for this redirect. The verifier has 43 to 128 unreserved characters,
  -- and the encoding of its SHA-256 hash is the code's challenge. The exchange grants the scopes of that code, and adds one pair of tokens of them for the code's subject.
  pub exchange_authorization_code-bound :
      (connector_id : String) (code : SecretHash) (client_id redirect_uri verifier : String)
      (tokens : TokenPairDraft) (family_id : String) (now : ℕ) (tables : OAuthTables)
      (scopes : ScopeSet) (after : OAuthTables)
      → exchange_authorization_code api connector_id code client_id redirect_uri verifier tokens
          family_id now tables
        ≡ (ok scopes, after)
      → (row : CodeRow) × In row tables.codes
        × (has_code (namespace_hash api connector_id code) row ≡ true)
        × Answers api client_id redirect_uri verifier now row
        × (row.scopes ≡ scopes)
        × (after.tokens
            ≡ tables.tokens
              ++ token_pair family_id client_id row.subject row.scopes
                  (namespace_token_pair api connector_id tokens)
                  now)
  unfolding exchange_authorization_code
  exchange_authorization_code-bound connector_id code client_id redirect_uri verifier tokens
        family_id now tables scopes after h =
      let hash = namespace_hash api connector_id code in
      let (row, found, done) =
        exchange_row-ok api hash client_id redirect_uri verifier
          (namespace_token_pair api connector_id tokens) family_id now tables
          (find (has_code hash) tables.codes) scopes after h in
      let (member, named) = find-In (has_code hash) tables.codes row found in
      (
        row,
        member,
        named,
        serves-Answers api client_id redirect_uri verifier now row done.serves,
        done.same_scopes,
        ap (λ t. t.tokens) done.leaves,
      )
