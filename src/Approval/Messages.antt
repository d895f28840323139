-- ===== src/Approval/Messages.antt =====
-- Messages to the service worker (src/background.ts, the `onMessage` listener): which come from the extension's own
-- pages, which keep the wallet unlocked, and what a web page gets without a prompt.
pub mod Silent
use cairn_wallet.Base.{
  ℕ, Bool, true, false, ◌&&◌, ◌||◌, not, Option, none, some, List, [], ◌∷◌, if◌then◌else◌,
}
use cairn_wallet.Base.Text.{Text, codes, text_eq, lower}
use cairn_wallet.Base.Eq.{text_key, has, lookup}
use cairn_wallet.Spend.Submit.{starts_with}
use cairn_wallet.Approval.Consents.{Grant, ConsentMap, revoke_consent}
use cairn_wallet.Approval.Queue.{
  RequestId, PageCode, first_party_only, Pending, Queue, queue_dapp_request,
}
use cairn_wallet.Approval.Resolve.{WalletStatus, present, active_addr}

abbrev pub read_only_methods : List Text
read_only_methods =
    codes "status"
    ∷ codes "pending"
    ∷ codes "balance"
    ∷ codes "csdMarket"
    ∷ codes "history"
    ∷ codes "epoch"
    ∷ codes "tip"
    ∷ codes "tipFloor"
    ∷ codes "rpcList"
    ∷ codes "explorerList"
    ∷ codes "connectedSites"
    ∷ codes "sealedClaims"
    ∷ codes "cairnxAssets"
    ∷ codes "cairnxTokens"
    ∷ codes "resolveName"
    ∷ codes "confirmName"
    ∷ codes "tokenFillQuote"
    ∷ codes "tokenDisplayMeta"
    ∷ codes "fillOfferView"
    ∷ codes "pendingMerge"
    ∷ codes "prewarmSpv"
    ∷ codes "dismissRpcNotice"
    ∷ []

-- what the browser says of a sender; a page cannot forge it
pub record Sender : Type 0 where
  pub id : Text
  pub url : Option Text
  pub origin : Option Text

-- `sender?.origin || sender?.url || "unknown"`
unfoldable pub sender_origin : Sender → Text
unfolding present
sender_origin s = elim (present s.origin) [
  | some o ↦ o
  | none ↦ elim (present s.url) [ some u ↦ u | none ↦ codes "unknown" ]
]

-- `sender.id === chrome.runtime.id` and a url below `chrome.runtime.getURL("")`
unfoldable pub is_extension_page : (runtime_id base_url : Text) → Sender → Bool
unfolding starts_with
is_extension_page runtime_id base_url s =
    text_eq s.id runtime_id && elim s.url [ none ↦ false | some u ↦ starts_with base_url u ]

-- What the gate of the listener does with a message.
pub data Routed : Type 0 where
  forbidden unknown_kind : Routed
  -- to the popup's methods; `touched` resets the idle lock
  popup : (touched : Bool) → Routed
  dapp : (origin : Text) → Routed

unfoldable pub route : (runtime_id base_url : Text) → Sender → (kind method : Text) → Routed
unfolding is_extension_page sender_origin
route runtime_id base_url s kind method =
    if text_eq kind (codes "popup")
    then (if is_extension_page runtime_id base_url s
        then popup (not (has method read_only_methods))
        else forbidden)
    else if text_eq kind (codes "dapp")
    then dapp (sender_origin s)
    else unknown_kind

pub data Event : Type 0 where
  accounts_changed disconnect_revoked : (origin : Text) → Event

pub data Reply : Type 0 where
  refused : PageCode → Reply
  address : (addr : Text) → Reply
  permissions : List (Text × Grant) → Reply
  revoked : Bool → Reply
  -- the promise waits for the user
  queued : Reply

pub record Handled (Params Answer : Type 0) : Type 0 where
  pub reply : Reply
  pub consents : ConsentMap
  pub events : List Event
  pub queue : Queue Params Answer

is_same : Option Text → Option Grant → Bool
is_same (some addr) (some g) = text_eq (lower g.addr) (lower addr)
is_same _ _ = false

own_grant : Text → Option Grant → List (Text × Grant)
own_grant origin none = []
own_grant origin (some g) = (origin, g) ∷ []

address_reply : Option Text → Reply
address_reply none = queued
address_reply (some addr) = address addr

refusal : Option PageCode → Reply
refusal none = queued
refusal (some code) = refused code

-- A message of a page. `consentAddr` "" counts as none, which no recorded grant has.
module _ {Params Answer : Type 0} (is_first_party : Text → Bool) where
  unfoldable pub dapp_message :
      WalletStatus
      → ConsentMap
      → (now : ℕ) (origin method : Text) → Params
      → Queue Params Answer
      → Handled Params Answer
  unfolding active_addr is_same own_grant address_reply refusal
  dapp_message st c now origin method params q =
      let stay : Reply → Handled Params Answer =
        λ r. record { reply = r; consents = c; events = []; queue = q } in
      if text_eq method (codes "signin") && not (is_first_party origin)
      then stay (refused first_party_only)
      else if text_eq method (codes "getPermissions")
      then stay (permissions (if st.unlocked then own_grant origin (lookup origin c) else []))
      else if text_eq method (codes "revokePermissions")
      then (let (removed, c') = revoke_consent origin c in
          record {
            reply = revoked removed;
            consents = c';
            events = accounts_changed origin ∷ disconnect_revoked origin ∷ [];
            queue = q;
          })
      else if (text_eq method (codes "connect") || text_eq method (codes "getAddress"))
          && is_same (active_addr st) (lookup origin c)
      then stay (address_reply (active_addr st))
      else (let (code, q') = queue_dapp_request now origin method params q in
          record { reply = refusal code; consents = c; events = []; queue = q' })
