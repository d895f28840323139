-- ===== src/Vault/Pending/Kept.antt =====
-- No queued content is lost (src/core/wallet.ts `flushPending`, `addPending`).
use cairn_wallet.Base.{◌≡◌, true, ◌||◌, Option, some, List}
use cairn_wallet.Base.Text.{Text}
use cairn_wallet.Base.Eq.{text_key, has}
use cairn_wallet.Vault.Pending.{Flight, Queue}
use cairn_wallet.Vault.Pending.Steps.{is_in}

-- What a flush under way has visited, it keeps or is done with.
pub record IsAccounted (q : Queue) (r : List Text) : Type 0 where
  pub visited_kept :
      (f : Flight)
      → q.flight ≡ some f
      → (k : Text) → has k f.processed ≡ true
      → (is_in k f.kept || has k r) ≡ true

-- queued still, or done with
abbrev IsHeld : Text → Queue → List Text → Type 0
IsHeld k q r = (is_in k q.stored || has k r) ≡ true
