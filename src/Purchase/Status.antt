-- ===== src/Purchase/Status.antt =====
-- The status codes of purchase requests and records and the lifecycle of a request
-- (packages/shared/src/index.ts), with the code sets that the API tests against.
use company_erp.Base.{
  String, Bool, true, false, Option, none, some, List, [], ◌∷◌, str_eq, if◌then◌else◌, arith, ◌≡◌,
}

pub data RequestStatus : Type 0 where
  draft pending_approval pending_purchase purchasing : RequestStatus
  partially_received completed rejected cancelled : RequestStatus

pub data RequestAction : Type 0 where
  submit approve reject : RequestAction

unfoldable pub RequestStatus-discrete : Discrete RequestStatus
RequestStatus-discrete = hlevel

pub data RecordStatus : Type 0 where
  pending_purchase ordered partially_received received cancelled : RecordStatus

pub data SourceType : Type 0 where
  platform supplier offline : SourceType

-- `purchaseRequestActionByStatus`
unfoldable pub allowed_actions : RequestStatus → List RequestAction
allowed_actions draft = submit ∷ []
allowed_actions RequestStatus.pending_approval = approve ∷ reject ∷ []
allowed_actions _ = []

-- `purchaseRequestStatusTransitions`
abbrev pub transition_target : RequestAction → RequestStatus
transition_target submit = pending_approval
transition_target approve = RequestStatus.pending_purchase
transition_target reject = rejected

abbrev same_action : RequestAction → RequestAction → Bool
same_action submit submit = true
same_action approve approve = true
same_action reject reject = true
same_action _ _ = false

-- `Array.prototype.includes`
includes : RequestAction → List RequestAction → Bool
includes a [] = false
includes a (b ∷ bs) = if same_action b a then true else includes a bs

unfoldable pub next_status : RequestStatus → RequestAction → Option RequestStatus
unfolding allowed_actions includes
next_status status action =
    if includes action (allowed_actions status) then some (transition_target action) else none

-- `requestStatuses.has(code)`, with the code that it stands for.
unfoldable pub request_status_of : String → Option RequestStatus
request_status_of s =
    if str_eq s "draft"
    then some draft
    else if str_eq s "pending_approval"
    then some pending_approval
    else if str_eq s "pending_purchase"
    then some RequestStatus.pending_purchase
    else if str_eq s "purchasing"
    then some purchasing
    else if str_eq s "partially_received"
    then some RequestStatus.partially_received
    else if str_eq s "completed"
    then some completed
    else if str_eq s "rejected"
    then some rejected
    else if str_eq s "cancelled"
    then some RequestStatus.cancelled
    else none

-- `recordStatuses.has(code)`
unfoldable pub record_status_of : String → Option RecordStatus
record_status_of s =
    if str_eq s "pending_purchase"
    then some RecordStatus.pending_purchase
    else if str_eq s "ordered"
    then some ordered
    else if str_eq s "partially_received"
    then some RecordStatus.partially_received
    else if str_eq s "received"
    then some received
    else if str_eq s "cancelled"
    then some RecordStatus.cancelled
    else none

-- `sourceTypes.has(code)`
unfoldable pub source_type_of : String → Option SourceType
source_type_of s =
    if str_eq s "platform"
    then some platform
    else if str_eq s "supplier"
    then some supplier
    else if str_eq s "offline"
    then some offline
    else none

-- An action leads to one status, wherever it is allowed.
pub next_status-target :
    (s : RequestStatus) (a : RequestAction) {t : RequestStatus}
    → next_status s a ≡ some t
    → transition_target a ≡ t
unfolding next_status
next_status-target s a h = ground arith
