-- ===== src/Approval/Principal.antt =====
-- The data of approval.rs and the stored form of a principal.
use run_on_mine.Prelude.{
  ◌≡◌, ◌≢◌, refl, sym, subst, String, str_eq, eq_iff, Bool, true, false, ◌&&◌, Option, none, some,
  arith, if◌then◌else◌, Result, ok, err,
}

pub data ApprovalStatus : Type 0 where
  pending approved denied expired : ApprovalStatus

pub data ApprovalTimeoutResult : Type 0 where
  expired_now : ApprovalTimeoutResult
  existing : ApprovalStatus → ApprovalTimeoutResult

pub data ApprovalDecision : Type 0 where
  once for_ten_minutes always deny : ApprovalDecision

pub data ApprovalPrincipal : Type 0 where
  local_stdio local_http quick_tunnel : ApprovalPrincipal
  oauth : String → String → ApprovalPrincipal
  legacy : ApprovalPrincipal

pub data PrincipalError : Type 0 where
  incomplete invalid : PrincipalError

unfoldable pub storage_kind : ApprovalPrincipal → String
storage_kind local_stdio = "local_stdio"
storage_kind local_http = "local_http"
storage_kind quick_tunnel = "quick_tunnel"
storage_kind (oauth _ _) = "oauth"
storage_kind legacy = "legacy"

unfoldable pub oauth_client_id : ApprovalPrincipal → Option String
oauth_client_id (oauth client_id _) = some client_id
oauth_client_id _ = none

unfoldable pub oauth_subject : ApprovalPrincipal → Option String
oauth_subject (oauth _ subject) = some subject
oauth_subject _ = none

abbrev pub is_none : Option String → Bool
is_none none = true
is_none (some _) = false

-- `filter(|value| !value.is_empty())`
abbrev pub nonempty : Option String → Option String
nonempty none = none
nonempty (some value) = if str_eq value "" then none else some value

abbrev pub oauth_of : Option String → Option String → Result PrincipalError ApprovalPrincipal
oauth_of (some client_id) (some subject) = ok (oauth client_id subject)
oauth_of _ _ = err incomplete

unfoldable pub from_storage :
    String → Option String → Option String → Result PrincipalError ApprovalPrincipal
from_storage kind client_id subject =
    let bare = is_none client_id && is_none subject in
    if str_eq kind "local_stdio" && bare
    then ok local_stdio
    else if str_eq kind "local_http" && bare
    then ok local_http
    else if str_eq kind "quick_tunnel" && bare
    then ok quick_tunnel
    else if str_eq kind "oauth"
    then oauth_of (nonempty client_id) (nonempty subject)
    else if str_eq kind "legacy" && bare
    then ok legacy
    else err invalid

-- An OAuth principal names both its client and its subject.
abbrev pub IsComplete : ApprovalPrincipal → Type 0
IsComplete (oauth client_id subject) = (client_id ≢ "") × (subject ≢ "")
IsComplete _ = Unit

-- The stored form of every complete principal reads back as that principal.
from_storage-storage_kind :
    (principal : ApprovalPrincipal)
    → IsComplete principal
    → from_storage (storage_kind principal) (oauth_client_id principal) (oauth_subject principal)
      ≡ ok principal
unfolding from_storage storage_kind oauth_client_id oauth_subject
from_storage-storage_kind local_stdio c = refl
from_storage-storage_kind local_http c = refl
from_storage-storage_kind quick_tunnel c = refl
from_storage-storage_kind (oauth client_id subject) c =
    ground (arith, eq_iff client_id "", eq_iff subject "")
from_storage-storage_kind legacy c = refl

stored_oauth :
    (kind a b : String) (principal : ApprovalPrincipal)
    → from_storage kind (some a) (some b) ≡ ok principal
    → (kind ≡ "oauth") × (principal ≡ oauth a b) × (a ≢ "") × (b ≢ "")
unfolding from_storage
stored_oauth kind a b principal h = ground (arith, eq_iff kind "oauth", eq_iff a "", eq_iff b "")

-- What reads back is complete, and was stored as exactly this form.
from_storage_sound :
    (kind : String) (client_id subject : Option String) (principal : ApprovalPrincipal)
    → from_storage kind client_id subject ≡ ok principal
    → IsComplete principal
      × (storage_kind principal ≡ kind)
      × (oauth_client_id principal ≡ client_id)
      × (oauth_subject principal ≡ subject)
unfolding from_storage storage_kind oauth_client_id oauth_subject
from_storage_sound kind none none principal h = ground (
  arith,
  eq_iff kind "local_stdio",
  eq_iff kind "local_http",
  eq_iff kind "quick_tunnel",
  eq_iff kind "oauth",
  eq_iff kind "legacy",
)
from_storage_sound kind none (some b) principal h = ground (
  arith,
  eq_iff kind "local_stdio",
  eq_iff kind "local_http",
  eq_iff kind "quick_tunnel",
  eq_iff kind "oauth",
  eq_iff kind "legacy",
  eq_iff b "",
)
from_storage_sound kind (some a) none principal h = ground (
  arith,
  eq_iff kind "local_stdio",
  eq_iff kind "local_http",
  eq_iff kind "quick_tunnel",
  eq_iff kind "oauth",
  eq_iff kind "legacy",
  eq_iff a "",
)
from_storage_sound kind (some a) (some b) principal h =
    let (k, p, na, nb) = stored_oauth kind a b principal h in
    subst
      (λ q.
        IsComplete q
        × (storage_kind q ≡ kind)
        × (oauth_client_id q ≡ some a)
        × (oauth_subject q ≡ some b))
      (sym p) ((na, nb), sym k, refl, refl)

unfoldable pub status_name : ApprovalStatus → String
status_name pending = "pending"
status_name approved = "approved"
status_name denied = "denied"
status_name expired = "expired"

unfoldable pub parse_status : String → Option ApprovalStatus
parse_status value =
    if str_eq value "pending"
    then some pending
    else if str_eq value "approved"
    then some approved
    else if str_eq value "denied"
    then some denied
    else if str_eq value "expired"
    then some expired
    else none

unfoldable pub decision_name : ApprovalDecision → String
decision_name once = "once"
decision_name for_ten_minutes = "for_ten_minutes"
decision_name always = "always"
decision_name deny = "deny"

unfoldable pub parse_decision : String → Option ApprovalDecision
parse_decision value =
    if str_eq value "once"
    then some once
    else if str_eq value "for_ten_minutes"
    then some for_ten_minutes
    else if str_eq value "always"
    then some always
    else if str_eq value "deny"
    then some deny
    else none

pub parse_status-status_name :
    (status : ApprovalStatus) → parse_status (status_name status) ≡ some status
unfolding parse_status status_name
parse_status-status_name pending = refl
parse_status-status_name _ = refl

pub parse_decision-decision_name :
    (decision : ApprovalDecision) → parse_decision (decision_name decision) ≡ some decision
unfolding parse_decision decision_name
parse_decision-decision_name once = refl
parse_decision-decision_name _ = refl
