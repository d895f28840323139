-- ===== src/Approval/Messages/Silent.antt =====
-- What a page gets without a prompt (src/background.ts, the `onMessage` listener).
use cairn_wallet.Base.{◌≡◌, ◌↔◌, Bool, true, false, ◌||◌, not, none, some, [], ◌∷◌, arith}
use cairn_wallet.Base.Text.{Text, codes, text_eq, lower}
use cairn_wallet.Base.Eq.{text_key, ◌===◌, has, lookup}
use cairn_wallet.Approval.Consents.{Grant, ConsentMap}
use cairn_wallet.Approval.Queue.{Queue}
use cairn_wallet.Approval.Resolve.{WalletStatus, active_addr}
use cairn_wallet.Approval.Messages.{
  Sender, is_extension_page, popup, route, read_only_methods, Reply, refused, address, permissions,
  revoked, queued,
}

-- The page may learn what the reply says: its own grant, or the active address where that is the one granted to it,
-- while the wallet is unlocked; and where it gives its grant up, whether it had one.
pub IsAllowed : WalletStatus → ConsentMap → (origin method : Text) → Reply → Type 0
IsAllowed st c origin method (address addr) =
    (st.unlocked ≡ true)
    × (active_addr st ≡ some addr)
    × (g : Grant) × (lookup origin c ≡ some g)
    × (lower g.addr ≡ lower addr)
    × ((text_eq method (codes "connect") || text_eq method (codes "getAddress")) ≡ true)
IsAllowed st c origin method (permissions []) = Unit
IsAllowed st c origin method (permissions ((o, g) ∷ gs)) =
    (st.unlocked ≡ true) × (o ≡ origin) × (lookup origin c ≡ some g) × (gs ≡ [])
IsAllowed st c origin method (revoked b) =
    (method ≡ codes "revokePermissions") × ((b ≡ true) ↔ ((g : Grant) × (lookup origin c ≡ some g)))
IsAllowed st c origin method (refused code) = Unit
IsAllowed st c origin method queued = Unit

-- The grants behind a message: after a revocation without the origin's, else as before.
pub IsLeft : ConsentMap → (origin : Text) → Reply → ConsentMap → Type 0
IsLeft c origin (revoked b) c' =
    (lookup origin c' ≡ none) × ((o : Text) → (o === origin) ≡ false → lookup o c' ≡ lookup o c)
IsLeft c origin (refused code) c' = c' ≡ c
IsLeft c origin (address addr) c' = c' ≡ c
IsLeft c origin (permissions gs) c' = c' ≡ c
IsLeft c origin queued c' = c' ≡ c

-- The popup's methods run only for a message that the browser attributes to a page of the extension, and only a
-- method outside the read-only list keeps the wallet unlocked.
pub route_popup :
    (runtime_id base_url : Text) (s : Sender) (kind method : Text) (touched : Bool)
    → route runtime_id base_url s kind method ≡ popup touched
    → (is_extension_page runtime_id base_url s ≡ true)
      × (touched ≡ not (has method read_only_methods))
unfolding route
route_popup runtime_id base_url s kind method touched h = ground arith
