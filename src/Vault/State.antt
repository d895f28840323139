-- ===== src/Vault/State.antt =====
-- The wallet's state and its encrypted document (src/core/wallet.ts `buildDoc`, `persistVault`, `writeVault`,
-- `applyDoc`, `migrateLegacy`, `persistSession`, `touch`). The JSON text of a document stands for the document.
use cairn_wallet.Base.{
  ◌≡◌, refl, ℕ, ◌+◌, ◌-◌, min, max, Bool, true, false, not, Option, none, some, List, [], ◌∷◌, ◌++◌,
  map, length, ◌==◌, if◌then◌else◌,
}
use cairn_wallet.Base.Text.{Text, codes}
use cairn_wallet.Base.Eq.{text_key, lookup, put, delete}
use cairn_wallet.Codec.{Crypto}
use cairn_wallet.Spend.Submit.{Signer}
use cairn_wallet.Vault.{Result, ok, err, ◌>>=◌, locked, corrupt_vault, write_failed}
use cairn_wallet.Vault.Keystore.{Key, Cipher, Kdf, Sealed, seal_with}
use cairn_wallet.Vault.Account.{Account, Phrases, from_priv}
use cairn_wallet.History.{History}
use cairn_wallet.Claims.{Claims, Preimage}

-- `Acct`; `imported` marks a key that the recovery phrase does not give.
pub record Acct : Type 0 where
  pub keys : Account
  pub label : Text
  pub index : Option ℕ
  pub imported : Bool

-- `PubAcct`, the mirror in clear
pub record PubAcct : Type 0 where
  pub addr : Text
  pub label : Text
  pub imported : Bool

pub record StoredAcct : Type 0 where
  pub priv : Text
  pub label : Text
  pub index : Option ℕ
  pub imported : Bool

-- `VaultDoc`
pub record VaultDoc : Type 0 where
  pub mnemonic : Option Text
  pub next_index : Option ℕ
  pub accounts : List StoredAcct
  pub active : Option ℕ

-- What a vault encrypts: a document, or, in a vault of an old version, a private key.
pub data Plain : Type 0 where
  doc : VaultDoc → Plain
  raw : Text → Plain

-- the libraries and ciphers
pub record Env : Type 0 where
  pub crypto : Crypto
  pub signer : Signer
  pub phrases : Phrases
  pub kdf : Kdf
  pub cipher : Cipher Plain
  pub seals : Cipher Preimage

-- `accts` is `none` while locked.
pub record Memory : Type 0 where
  pub accts : Option (List Acct)
  pub active : ℕ
  pub vault_key : Option Key
  pub salt : Text
  pub iter : ℕ
  pub mnemonic : Option Text
  pub next_index : ℕ
  pub last_active : ℕ
  pub wiped : Bool

-- The local store's entries of the vault.
pub record Local : Type 0 where
  pub vault : Option Sealed
  pub wallets : Option (List PubAcct)
  pub active : Option ℕ

-- `authGuard`
pub record Guard : Type 0 where
  pub failed : ℕ
  pub until : ℕ

-- The session store, which lives in memory.
pub record Session : Type 0 where
  pub key_raw : Option Key
  pub ts : Option ℕ
  pub guard : Option Guard

pub record World : Type 0 where
  pub mem : Memory
  pub local : Local
  pub session : Option Session
  pub hist : History
  pub claims : Claims

-- which writes of the local store succeed
pub record Writes : Type 0 where
  pub vault_ok : Bool
  pub wallets_ok : Bool
  pub active_ok : Bool

abbrev pub stored_of : Acct → StoredAcct
stored_of a = record {
  priv = a.keys.privkey;
  label = a.label;
  index = a.index;
  imported = a.imported;
}

abbrev pub public_of : Acct → PubAcct
public_of a = record { addr = a.keys.addr; label = a.label; imported = a.imported }

-- `mirrorOf`
unfoldable pub mirror_of : List Acct → List PubAcct
mirror_of = map public_of

unfoldable pub build_doc :
    (mnemonic : Option Text) (next_index : ℕ) → List Acct → (active : ℕ) → VaultDoc
build_doc mnemonic next_index accts active = record {
  mnemonic = mnemonic;
  next_index = some next_index;
  accounts = map stored_of accts;
  active = some active;
}

-- `writeVault`: three writes in this order; whether all succeed.
unfoldable pub write_vault : Writes → Sealed → List PubAcct → ℕ → Local → Bool × Local
write_vault writes vault mirror active s =
    if not writes.vault_ok
    then (false, s)
    else if not writes.wallets_ok
    then (false, record s { vault = some vault })
    else if not writes.active_ok
    then (false, record s { vault = some vault; wallets = some mirror })
    else (true, record { vault = some vault; wallets = some mirror; active = some active })

unfoldable pub hist_key : Text → Text
hist_key addr = codes "txHistory:" ++ addr

unfoldable pub seal_key : Text → Text
seal_key addr = codes "sealedClaims:" ++ addr

-- One entry moves to its new key, unless that has a value.
move_key : {V : Type 0} → Text → Text → List (Text × V) → List (Text × V)
move_key from to s = elim (lookup from s) [
  | none ↦ s
  | some old ↦ elim (lookup to s) [ none ↦ delete from (put to old s) | some v ↦ delete from s ]
]

-- `migrateLegacy`
unfoldable pub migrate_legacy : Text → World → World
unfolding move_key hist_key seal_key
migrate_legacy addr w = record w {
  hist = record w.hist { stored = move_key (codes "txHistory") (hist_key addr) w.hist.stored };
  claims = record w.claims {
    stored = move_key (codes "sealedClaims") (seal_key addr) w.claims.stored;
  };
}

-- `this.lastActive = Date.now()`, and its copy in the session
unfoldable pub touch : (now : ℕ) → World → World
touch now w = record w {
  mem = record w.mem { last_active = now };
  session = elim w.session [ none ↦ none | some s ↦ some (record s { ts = some now }) ];
}

pub persist_in : Option Session → Option Key → World → World
persist_in none key w = w
persist_in (some s) none w = w
persist_in (some s) (some key) w = record w {
  session = some (record s { key_raw = some key; ts = some w.mem.last_active });
}

-- `persistSession`
unfoldable pub persist_session : World → World
unfolding persist_in
persist_session w = persist_in w.session w.mem.vault_key w

pub persist_in-same :
    (s : Option Session) (key : Option Key) (w : World)
    → ((persist_in s key w).mem ≡ w.mem) × ((persist_in s key w).local ≡ w.local)
unfolding persist_in
persist_in-same none key w = (refl, refl)
persist_in-same (some s) none w = (refl, refl)
persist_in-same (some s) (some key) w = (refl, refl)

-- `x.label || "Account"`
unfoldable pub label_or_account : Text → Text
label_or_account [] = codes "Account"
label_or_account (c ∷ t) = c ∷ t

-- one more than the index of an account of the phrase
unfoldable pub index_above : Acct → ℕ
index_above a = elim a.index [ none ↦ 0 | some i ↦ if a.imported then 0 else i + 1 ]

-- `maxIdx + 1`
unfoldable pub first_free : List Acct → ℕ
unfolding index_above
first_free [] = 0
first_free (a ∷ accts) = max (index_above a) (first_free accts)

unfoldable pub or_zero : Option ℕ → ℕ
or_zero none = 0
or_zero (some n) = n

module _ (env : Env) where
  -- `this.acct(priv, label, extra)`
  unfoldable pub acct : (priv label : Text) (index : Option ℕ) (imported : Bool) → Result Acct
  acct priv label index imported = from_priv env.crypto env.signer env.phrases priv >>= λ keys.
      ok (record { keys = keys; label = label; index = index; imported = imported })

  unfoldable pub accts_of : List StoredAcct → Result (List Acct)
  unfolding acct label_or_account
  accts_of [] = ok []
  accts_of (x ∷ xs) = acct x.priv (label_or_account x.label) x.index x.imported >>= λ a.
      accts_of xs >>= λ rest. ok (a ∷ rest)

  unfoldable pub apply_parsed : VaultDoc → Result (List Acct) → World → Result (Unit {0}) × World
  unfolding or_zero first_free
  apply_parsed d (err e) w = (err e, record w { mem = record w.mem { mnemonic = d.mnemonic } })
  apply_parsed d (ok accts) w = (
    ok tt,
    record w {
      mem = record w.mem {
        mnemonic = d.mnemonic;
        accts = some accts;
        active = min (or_zero d.active) (length accts - 1);
        next_index = max (or_zero d.next_index) (first_free accts);
      };
    },
  )

  unfoldable pub apply_raw : Result Acct → World → Result (Unit {0}) × World
  unfolding migrate_legacy
  apply_raw (err e) w = (err e, w)
  apply_raw (ok a) w = (
    ok tt,
    migrate_legacy a.keys.addr (record w {
      mem = record w.mem { mnemonic = none; next_index = 0; accts = some (a ∷ []); active = 0 };
    }),
  )

  -- `applyDoc`; where an account's key is refused, the phrase has been set.
  unfoldable pub apply_doc : Plain → World → Result (Unit {0}) × World
  unfolding apply_parsed apply_raw accts_of
  apply_doc (doc d) w =
      if length d.accounts == 0
      then (err corrupt_vault, w)
      else apply_parsed d (accts_of d.accounts) w
  apply_doc (raw priv) w = apply_raw (acct priv (codes "Account 1") none true) w

  unfoldable pub write_state :
      (iv : Text) → Writes → Option (List Acct) → Option Key → World → Result (Unit {0}) × World
  unfolding build_doc write_vault mirror_of
  write_state iv writes none key w = (err locked, w)
  write_state iv writes (some accts) none w = (err locked, w)
  write_state iv writes (some accts) (some key) w =
      let m = w.mem in
      let sealed =
        seal_with env.cipher iv (doc (build_doc m.mnemonic m.next_index accts m.active)) key m.salt
          m.iter in
      let (done, s) = write_vault writes sealed (mirror_of accts) m.active w.local in
      (if done then ok tt else err write_failed, record w { local = s })

  -- `doPersistVault`: the document and its mirror are of one moment.
  unfoldable pub persist_vault : (iv : Text) → Writes → World → Result (Unit {0}) × World
  unfolding write_state
  persist_vault iv writes w = write_state iv writes w.mem.accts w.mem.vault_key w
