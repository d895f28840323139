-- ===== src/Tests/Vaults.antt =====
-- The vault and the sealed claims on concrete inputs (src/core/wallet.ts, src/core/claims.ts).
use cairn_wallet.Base.{
  subst, ◌+◌, ◌*◌, ◌-◌, ◌≡◌, ◌≤◌, refl, true, false, none, some, List, [], ◌∷◌, ◌++◌, map, all, inl,
  arith,
}
use mathlib.Core.Option.{some-injective}
use cairn_wallet.Base.Text.{Text, codes, text_eq, lower}
use cairn_wallet.Base.Eq.{lookup}
use cairn_wallet.Codec.{strip}
use cairn_wallet.Spend.Outputs.{is_hex_code}
use cairn_wallet.Spend.Submit.{addr_from_priv, pub_from_priv}
use cairn_wallet.Vault.{ok}
use cairn_wallet.Vault.Keystore.{derive_vault_key}
use cairn_wallet.Vault.Account.{Account, from_priv}
use cairn_wallet.Vault.State.{
  Acct, Env, Memory, Session, World, doc, build_doc, persist_vault, label_or_account, index_above,
  first_free, apply_doc,
}
use cairn_wallet.Vault.Guard.{Attempt, may_try}
use cairn_wallet.Vault.Guard.Throttled.{tried, IsAlone, tried_bounded}
use cairn_wallet.Vault.Lock.{lock}
use cairn_wallet.Vault.Open.{Draw, unlock}
use cairn_wallet.Vault.Recover.{IsState, recovered, apply_doc-build_doc}
use cairn_wallet.Vault.Reach.{IsWorld}
use cairn_wallet.Vault.Reach.Steps.{
  Operations, done, then_, created, closed, unlocked, run, run-IsWorld,
}
use cairn_wallet.Base.{◌⊎◌}
use cairn_wallet.Vault.Accounts.{must_unlocked, find_index, same_addr}
use cairn_wallet.Vault.Accounts.Calls.{remove_account, acct_at}
use cairn_wallet.Vault.Removal.{IsReauthenticated, IsRefused, remove_account-IsRefused}
use cairn_wallet.Base.{ℕ}
use cairn_wallet.Base.Eq.{text_key}
use cairn_wallet.Vault.Relock.{IsSame, all_written, unlock-lock-IsSame}
use cairn_wallet.History.Record.Definite.{works}
use cairn_wallet.Claims.{
  SealRec, Claims, SealKey, persist_seal, reencrypt, open_preimage, seals_at, Content,
  reveal_content, reveal_claim, has_seal,
}
use cairn_wallet.Claims.Lists.{holds}
use cairn_wallet.Claims.Held.{persist_seal-holds}
use cairn_wallet.Claims.Sealing.{
  is_encrypted, IsOwnMined, open_preimage-reencrypt, reveal_claim-IsOwnMined,
}
use cairn_wallet.Tests.Sample.{copies, sample_crypto, sample_signer}
use cairn_wallet.Tests.Toy.{toy_vault, toy_seals}

abbrev sample_env : Env
sample_env = record {
  crypto = sample_crypto;
  signer = sample_signer;
  phrases = record {
    is_valid_private_key = λ h. true;
    validate_mnemonic = λ m. true;
    hd_private_key = λ m i. some (copies 64 b'1');
  };
  kdf = record { derive = λ password salt iter. password ++ salt; is_salt = λ s. true };
  cipher = toy_vault;
  seals = toy_seals;
}

abbrev priv : Text
priv = codes "0x" ++ copies 64 b'2'

abbrev keys : Account
keys = record {
  privkey = priv;
  pubkey = pub_from_priv sample_crypto sample_signer priv;
  addr = addr_from_priv sample_crypto sample_signer priv;
}

abbrev saved : Acct
saved = record { keys = keys; label = codes "Savings"; index = none; imported = true }

-- an attempt in whose time no other writes the guard, and whose count is kept
abbrev alone : ℕ → ℕ → Attempt
alone t u = record {
  checked_at = t;
  counted_at = u;
  is_check_read = true;
  is_count_read = true;
  is_kept = true;
  before_read = λ g. g;
  before_write = λ g. g;
}

abbrev draw : Draw
draw = record {
  now = 5000;
  attempt = alone 5000 5200;
  salt = codes "5a";
  iv = codes "0b";
  writes = all_written;
  disks = λ ps. works;
  seal_disks = λ k. works;
  seal_ivs = λ r. r.txid;
}

abbrev password : Text
password = codes "correct horse"

abbrev memory : Memory
memory = record {
  accts = some (saved ∷ []);
  active = 0;
  vault_key = some (password ++ codes "5a");
  salt = codes "5a";
  iter = 600000;
  mnemonic = none;
  next_index = 0;
  last_active = 4000;
  wiped = false;
}

abbrev world : World
world = record {
  mem = memory;
  local = record { vault = none; wallets = none; active = none };
  session = none;
  hist = record { stored = []; parked = [] };
  claims = record { stored = []; parked = [] };
}

keys_lem : from_priv sample_crypto sample_signer sample_env.phrases priv ≡ ok keys
unfolding from_priv strip text_eq lower is_hex_code
keys_lem = refl

world-IsState : IsState sample_env none 0 (saved ∷ []) 0
unfolding label_or_account index_above first_free
world-IsState = record {
  slot = omega arith;
  index_free = omega arith;
  sound = (record { keys_match = keys_lem; labelled = refl; recoverable = inl refl }, tt);
}

some_saved : (accts : List Acct) → memory.accts ≡ some accts → IsState sample_env none 0 accts 0
some_saved accts e =
    subst (λ (l : List Acct). IsState sample_env none 0 l 0) (some-injective _ _ e) world-IsState

world-IsWorld : IsWorld sample_env world
world-IsWorld = record { memory = some_saved; stored = λ v e. absurd (cc) }

unlock-lock-IsSame_example :
    IsSame
      (unlock sample_env draw password
        (lock (persist_vault sample_env (codes "0a") all_written world).1)).1.mem
      memory
unfolding derive_vault_key may_try
unlock-lock-IsSame_example =
    unlock-lock-IsSame sample_env world (saved ∷ []) (password ++ codes "5a") (codes "0a") password
      draw world-IsWorld refl refl refl refl

apply_doc-build_doc_example :
    apply_doc sample_env (doc (build_doc none 0 (saved ∷ []) 0)) world
    ≡ (ok tt, recovered none 0 (saved ∷ []) 0 world)
apply_doc-build_doc_example =
    apply_doc-build_doc sample_env none 0 (saved ∷ []) 0 world world-IsState

abbrev blank : World
blank = record world { mem = record memory { accts = none; vault_key = none; salt = []; iter = 0 } }

blank-IsWorld : IsWorld sample_env blank
blank-IsWorld = record { memory = λ accts e. absurd (cc); stored = λ v e. absurd (cc) }

abbrev day : Operations
day =
    then_ (created draw (codes "a b") password) (then_ closed (then_ (unlocked draw password) done))

run-IsWorld_example : IsWorld sample_env (run sample_env day blank)
run-IsWorld_example = run-IsWorld sample_env day blank blank-IsWorld

abbrev fresh_session : Session
fresh_session = record { key_raw = none; ts = none; guard = none }

alone-IsAlone : (t u : ℕ) → t ≤ u → IsAlone (alone t u)
alone-IsAlone t u o = record {
  reads_check = refl;
  reads_count = refl;
  keeps = refl;
  undisturbed = λ g. refl;
  in_order = o;
}

abbrev guesses : List Attempt
guesses = alone 10 210 ∷ alone 220 420 ∷ alone 430 630 ∷ alone 9000 9200 ∷ []

tried_bounded_example : tried (some fresh_session) guesses * 5000 ≤ 25000 + (9000 - 10)
tried_bounded_example = tried_bounded 10 9000 fresh_session guesses (omega arith) refl (
  (omega arith, omega arith, alone-IsAlone 10 210 (omega arith)),
  (
    (omega arith, omega arith, alone-IsAlone 220 420 (omega arith)),
    (
      (omega arith, omega arith, alone-IsAlone 430 630 (omega arith)),
      ((omega arith, omega arith, alone-IsAlone 9000 9200 (omega arith)), tt),
    ),
  ),
)

abbrev list_key : Text
list_key = codes "sealedClaims:0xaa"

abbrev seal_w : SealKey
seal_w = record { key = some (codes "k"); salt = codes "5a"; iter = 600000 }

abbrev in_clear : SealRec
in_clear = record {
  txid = codes "0xc1";
  domain = codes "news";
  enc = none;
  claim = some (codes "rain");
  nonce = some (codes "77");
  revealed = false;
}

abbrev no_claims : Claims
no_claims = record { stored = []; parked = [] }

-- A full disk: the record stays parked.
persist_seal-holds_example :
    holds list_key (codes "0xc1") (
      persist_seal toy_seals true false draw.seal_ivs seal_w
        (λ k. record { reads = true; writes = false })
        (some (list_key, in_clear))
        no_claims)
    ≡ true
unfolding seals_at lookup text_eq has_seal
persist_seal-holds_example =
    persist_seal-holds toy_seals draw.seal_ivs seal_w true false
      (λ k. record { reads = true; writes = false }) (some (list_key, in_clear)) no_claims list_key
      (codes "0xc1") refl (λ e. refl) refl

open_preimage-reencrypt_example :
    (map (open_preimage toy_seals seal_w) (reencrypt toy_seals draw.seal_ivs seal_w (in_clear ∷ []))
      ≡ map (open_preimage toy_seals seal_w) (in_clear ∷ []))
    × (all is_encrypted (reencrypt toy_seals draw.seal_ivs seal_w (in_clear ∷ [])) ≡ true)
open_preimage-reencrypt_example =
    open_preimage-reencrypt toy_seals draw.seal_ivs seal_w (codes "k") (in_clear ∷ []) refl refl

abbrev kept : Claims
kept = record { stored = (list_key, in_clear ∷ []) ∷ []; parked = [] }

abbrev published : Content
published = record {
  commit = codes "0xc1";
  domain = codes "news";
  preimage = record { claim = codes "rain"; nonce = codes "77" };
}

reveal_claim-IsOwnMined_example :
    IsOwnMined toy_seals (λ id. true) seal_w list_key (codes "0xc1") kept published
unfolding reveal_claim reveal_content open_preimage seals_at lookup text_eq
reveal_claim-IsOwnMined_example =
    reveal_claim-IsOwnMined toy_seals (λ id. true) seal_w list_key (codes "0xc1") kept (λ m. true)
      true draw.seal_ivs works kept published refl

abbrev spare : Acct
spare = record {
  keys = record { privkey = []; pubkey = []; addr = codes "0xee" };
  label = codes "Spare";
  index = some 0;
  imported = false;
}

abbrev two_accounts : World
two_accounts = record world { mem = record memory { accts = some (spare ∷ saved ∷ []) } }

remove_account-IsRefused_example :
    IsReauthenticated sample_env draw none two_accounts
    ⊎ IsRefused two_accounts (remove_account sample_env draw keys.addr none (λ w. w) two_accounts)
unfolding must_unlocked find_index same_addr text_eq lower addr_from_priv acct_at
remove_account-IsRefused_example =
    remove_account-IsRefused sample_env draw keys.addr none (λ w. w) two_accounts
      (spare ∷ saved ∷ []) saved refl (omega arith) refl refl
