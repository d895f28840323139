-- ===== src/Vault/Accounts.antt =====
-- The accounts of an unlocked wallet (src/core/wallet.ts `label`, `mustUnlocked`, `captureSigner`, `signerUnchanged`):
-- what the calls of Vault/Accounts/Calls do to the list.
pub mod Calls
use cairn_wallet.Base.{
  ℕ, zero, suc, ◌+◌, ◌-◌, ◌/◌, ◌%◌, Bool, true, false, ◌&&◌, not, Option, none, some, List, [], ◌∷◌,
  ◌++◌, take, any, keep, length, get_elem?, ltb, leb, ◌==◌, if◌then◌else◌,
}
use cairn_wallet.Base.Text.{Text, codes, text_eq, lower}
use cairn_wallet.Base.Eq.{text_key, delete}
use cairn_wallet.Vault.{
  Result, ok, err, ◌>>=◌, phrase, locked, duplicate_account, no_such_account, last_account,
  no_active_account, reauthenticate, no_wallet,
}
use cairn_wallet.Vault.Keystore.{Key, Sealed}
use cairn_wallet.Vault.Account.{trim, derive_account}
use cairn_wallet.Vault.State.{
  Acct, Plain, Env, Memory, World, hist_key, seal_key, acct, persist_vault,
}
use cairn_wallet.Vault.Guard.{open_vault_doc}
use cairn_wallet.Vault.Open.{Draw}
use cairn_wallet.History.{HistoryRow}
use cairn_wallet.Claims.{SealRec}

abbrev pub max_label : ℕ
max_label = 40

unfoldable pub label_or : Text → Text → Text
label_or [] fallback = fallback
label_or (c ∷ t) fallback = take max_label (c ∷ t)

abbrev pub text_of : Option Text → Text
text_of none = []
text_of (some t) = t

-- `Wallet.label`
unfoldable pub label : Option Text → (fallback : Text) → Text
unfolding label_or
label t fallback = label_or (trim (text_of t)) fallback

-- `String(n)`: the fuel is more than the digits.
decimal_from : ℕ → ℕ → Text
decimal_from zero n = []
decimal_from (suc f) n =
    let rest = decimal_from f (n / 10) in
    if ltb n 10 then (n + 48) ∷ [] else rest ++ (n % 10 + 48) ∷ []

unfoldable pub decimal : ℕ → Text
unfolding decimal_from
decimal n = decimal_from (n + 1) n

unfoldable pub numbered : ℕ → Text
unfolding decimal
numbered n = codes "Account " ++ decimal n

-- `this.mustUnlocked()`
unfoldable pub must_unlocked : Memory → Result (List Acct)
must_unlocked m = elim m.accts [
  | none ↦ err locked
  | some accts ↦ elim m.vault_key [ none ↦ err locked | some key ↦ ok accts ]
]

unfoldable pub same_addr : Text → Acct → Bool
same_addr addr a = text_eq (lower a.keys.addr) (lower addr)

-- `findIndex` by address
unfoldable pub find_index : Text → List Acct → Option ℕ
unfolding same_addr
find_index addr [] = none
find_index addr (a ∷ accts) =
    let rest = find_index addr accts in
    if same_addr addr a then some 0 else elim rest [ none ↦ none | some i ↦ some (i + 1) ]

-- `accts.splice(i, 1)`
abbrev pub remove_at {ℓ} : {A : Type ℓ} → ℕ → List A → List A
remove_at i [] = []
remove_at zero (x ∷ xs) = xs
remove_at (suc i) (x ∷ xs) = x ∷ remove_at i xs

-- `accts.push(a); this.active = accts.length - 1`
unfoldable pub push_acct : Acct → (next_index : ℕ) → List Acct → World → World
push_acct a next_index accts w = record w {
  mem = record w.mem {
    accts = some (accts ++ a ∷ []);
    active = length accts;
    next_index = next_index;
  };
}

-- whose account `switchAccount` is asked for
pub data Selection : Type 0 where
  by_index : ℕ → Selection
  by_addr : Text → Selection

unfoldable pub selected : Selection → List Acct → Option ℕ
selected (by_index i) accts = if ltb i (length accts) then some i else none
selected (by_addr addr) accts = find_index addr accts

-- the first account of that address has the label
unfoldable pub relabel : Text → Text → List Acct → List Acct
unfolding same_addr
relabel addr t [] = []
relabel addr t (a ∷ accts) =
    let rest = relabel addr t accts in
    if same_addr addr a then record a { label = label (some t) a.label } ∷ accts else a ∷ rest

-- the active slot after a removal at `i`, where `n` accounts are left
unfoldable pub active_after : (active i n : ℕ) → ℕ
active_after active i n =
    if leb n active then n - 1 else if ltb i active then active - 1 else active

-- The removed account's data goes too, stored and parked.
unfoldable pub drop_account_data : Text → World → World
unfolding hist_key seal_key
drop_account_data addr w = record w {
  hist = record {
    stored = delete (hist_key addr) w.hist.stored;
    parked = keep (λ (p : Text × HistoryRow). not (text_eq p.0 (hist_key addr))) w.hist.parked;
  };
  claims = record {
    stored = delete (seal_key addr) w.claims.stored;
    parked = keep (λ (p : Text × SealRec). not (text_eq p.0 (seal_key addr))) w.claims.parked;
  };
}

unfoldable pub splice_found : Option Acct → ℕ → List Acct → World → World
unfolding drop_account_data active_after
splice_found none i accts w = w
splice_found (some gone) i accts w = drop_account_data gone.keys.addr (record w {
  mem = record w.mem {
    accts = some (remove_at i accts);
    active = active_after w.mem.active i (length accts - 1);
  };
})

-- the part of `removeAccount` from the splice to the deletes
unfoldable pub splice : ℕ → List Acct → World → World
unfolding splice_found
splice i accts w = splice_found (get_elem? accts i) i accts w

-- A signing method's captured account: `SignerCtx`.
pub record SignerCtx : Type 0 where
  pub active : ℕ
  pub addr : Text
  pub priv : Text
  pub hist_key : Text

captured : Option (List Acct) → ℕ → Result SignerCtx
captured none i = err locked
captured (some accts) i = elim (get_elem? accts i) [
  | none ↦ err no_active_account
  | some a ↦ ok (record {
    active = i;
    addr = a.keys.addr;
    priv = a.keys.privkey;
    hist_key = hist_key a.keys.addr;
  })
]

-- `captureSigner`
unfoldable pub capture_signer : Memory → Result SignerCtx
unfolding captured
capture_signer m = captured m.accts m.active

slot_has : Option Acct → Text → Bool
slot_has none addr = false
slot_has (some a) addr = same_addr addr a

-- `signerUnchanged`
unfoldable pub signer_unchanged : SignerCtx → Memory → Bool
unfolding slot_has same_addr
signer_unchanged ctx m = elim m.accts [
  | none ↦ false
  | some accts ↦ m.active == ctx.active && slot_has (get_elem? accts ctx.active) ctx.addr
]
