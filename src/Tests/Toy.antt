-- ===== src/Tests/Toy.antt =====
-- A cipher that the tests can run: it writes the key and the plaintext as numbers, one after another.
use cairn_wallet.Base.{
  ℕ, zero, suc, ◌≡◌, refl, sym, ap, ◌∙◌, inl, inr, Bool, true, false, Option, none, some, List, [],
  ◌∷◌, ◌++◌, length, take, drop, arith, Bool-cases, if◌then◌else◌,
}
use mathlib.Core.Option.{some-injective}
use cairn_wallet.Base.Text.{Text, text_eq, text_eq_refl}
use cairn_wallet.Base.Maybe.{◌>>=◌}
use cairn_wallet.Vault.Keystore.{Key, Cipher}
use cairn_wallet.Vault.State.{StoredAcct, Plain, doc, raw}
use cairn_wallet.Claims.{Preimage}

take-append : (t r : Text) → take (length t) (t ++ r) ≡ t
take-append [] r = refl
take-append (c ∷ t) r = ap (◌∷◌ c) (take-append t r)

drop-append : (t r : Text) → drop (length t) (t ++ r) ≡ r
drop-append [] r = refl
drop-append (c ∷ t) r = drop-append t r

unfoldable pub put_text : Text → Text → Text
put_text t r = length t ∷ t ++ r

unfoldable pub get_text : Text → Option (Text × Text)
get_text [] = none
get_text (n ∷ s) = some (take n s, drop n s)

get_text-put_text : (t r : Text) → get_text (put_text t r) ≡ some (t, r)
unfolding put_text get_text
get_text-put_text t r = rw (take-append t r, drop-append t r) refl

unfoldable pub put_maybe : Option Text → Text → Text
put_maybe none r = 0 ∷ r
put_maybe (some t) r = 1 ∷ put_text t r

unfoldable pub get_maybe : Text → Option (Option Text × Text)
get_maybe [] = none
get_maybe (zero ∷ s) = some (none, s)
get_maybe (suc n ∷ s) = get_text s >>= λ p. some (some p.0, p.1)

get_maybe-put_maybe : (t : Option Text) (r : Text) → get_maybe (put_maybe t r) ≡ some (t, r)
unfolding put_maybe get_maybe
get_maybe-put_maybe none r = refl
get_maybe-put_maybe (some t) r = rw (get_text-put_text t r, ◌>>=◌) refl

unfoldable pub put_number : Option ℕ → Text → Text
put_number none r = 0 ∷ r
put_number (some n) r = suc n ∷ r

unfoldable pub get_number : Text → Option (Option ℕ × Text)
get_number [] = none
get_number (zero ∷ s) = some (none, s)
get_number (suc n ∷ s) = some (some n, s)

get_number-put_number : (n : Option ℕ) (r : Text) → get_number (put_number n r) ≡ some (n, r)
unfolding put_number get_number
get_number-put_number none r = refl
get_number-put_number (some n) r = refl

unfoldable pub put_flag : Bool → Text → Text
put_flag false r = 0 ∷ r
put_flag true r = 1 ∷ r

unfoldable pub get_flag : Text → Option (Bool × Text)
get_flag [] = none
get_flag (zero ∷ s) = some (false, s)
get_flag (suc n ∷ s) = some (true, s)

get_flag-put_flag : (b : Bool) (r : Text) → get_flag (put_flag b r) ≡ some (b, r)
unfolding put_flag get_flag
get_flag-put_flag false r = refl
get_flag-put_flag true r = refl

unfoldable pub put_acct : StoredAcct → Text → Text
put_acct a r = put_text a.priv (put_text a.label (put_number a.index (put_flag a.imported r)))

unfoldable pub get_acct : Text → Option (StoredAcct × Text)
get_acct s = get_text s >>= λ p. get_text p.1 >>= λ l. get_number l.1 >>= λ i. get_flag i.1 >>= λ f.
    some (record { priv = p.0; label = l.0; index = i.0; imported = f.0 }, f.1)

get_acct-put_acct : (a : StoredAcct) (r : Text) → get_acct (put_acct a r) ≡ some (a, r)
unfolding put_acct get_acct
get_acct-put_acct a r =
    rw
      (
        get_text-put_text a.priv (put_text a.label (put_number a.index (put_flag a.imported r))),
        ◌>>=◌,
        get_text-put_text a.label (put_number a.index (put_flag a.imported r)),
        get_number-put_number a.index (put_flag a.imported r),
        get_flag-put_flag a.imported r,
      )
      refl

unfoldable pub put_accts : List StoredAcct → Text → Text
put_accts [] r = r
put_accts (a ∷ as_) r = put_acct a (put_accts as_ r)

unfoldable pub get_accts : ℕ → Text → Option (List StoredAcct × Text)
get_accts zero s = some ([], s)
get_accts (suc n) s = get_acct s >>= λ a. get_accts n a.1 >>= λ l. some (a.0 ∷ l.0, l.1)

get_accts-put_accts :
    (l : List StoredAcct) (r : Text) → get_accts (length l) (put_accts l r) ≡ some (l, r)
unfolding put_accts get_accts
get_accts-put_accts [] r = refl
get_accts-put_accts (a ∷ l) r =
    rw (get_acct-put_acct a (put_accts l r), ◌>>=◌, get_accts-put_accts l r) refl

unfoldable pub put_plain : Plain → Text → Text
put_plain (raw t) r = 0 ∷ put_text t r
put_plain (doc d) r =
    1
    ∷ put_maybe d.mnemonic
        (put_number d.next_index (put_number d.active (length d.accounts ∷ put_accts d.accounts r)))

unfoldable pub get_doc : Option ℕ → Option ℕ → Option Text → Text → Option Plain
get_doc next_index active mnemonic [] = none
get_doc next_index active mnemonic (n ∷ s) = get_accts n s >>= λ l.
    some (
      doc
        (record { mnemonic = mnemonic; next_index = next_index; accounts = l.0; active = active }))

unfoldable pub get_plain : Text → Option Plain
get_plain [] = none
get_plain (zero ∷ s) = get_text s >>= λ t. some (raw t.0)
get_plain (suc n ∷ s) =
    get_maybe s >>= λ m. get_number m.1 >>= λ i. get_number i.1 >>= λ a. get_doc i.0 a.0 m.0 a.1

pub get_plain-put_plain : (p : Plain) (r : Text) → get_plain (put_plain p r) ≡ some p
unfolding put_plain get_plain get_doc
get_plain-put_plain (raw t) r = rw (get_text-put_text t r, ◌>>=◌) refl
get_plain-put_plain (doc d) r =
    rw
      (
        get_maybe-put_maybe d.mnemonic (
            put_number d.next_index
              (put_number d.active (length d.accounts ∷ put_accts d.accounts r))),
        ◌>>=◌,
        get_number-put_number d.next_index
            (put_number d.active (length d.accounts ∷ put_accts d.accounts r)),
        get_number-put_number d.active (length d.accounts ∷ put_accts d.accounts r),
        get_accts-put_accts d.accounts r,
      )
      refl

unfoldable pub put_preimage : Preimage → Text → Text
put_preimage p r = put_text p.claim (put_text p.nonce r)

unfoldable pub get_preimage : Text → Option Preimage
get_preimage s =
    get_text s >>= λ c. get_text c.1 >>= λ n. some (record { claim = c.0; nonce = n.0 })

pub get_preimage-put_preimage : (p : Preimage) (r : Text) → get_preimage (put_preimage p r) ≡ some p
unfolding put_preimage get_preimage
get_preimage-put_preimage p r =
    rw (get_text-put_text p.claim (put_text p.nonce r), ◌>>=◌, get_text-put_text p.nonce r) refl

module _ {P : Type 0} (put : P → Text → Text) (get : Text → Option P)
    (get-put : (p : P) (r : Text) → get (put p r) ≡ some p) where
  unfoldable pub lock_text : Key → (iv : Text) → P → Text
  lock_text key iv p = put_text key (put p [])

  unfoldable pub open_text : Key → (iv ct : Text) → Option P
  open_text key iv ct = get_text ct >>= λ k. if text_eq k.0 key then get k.1 else none

  open_text-lock_text :
      (key other : Key) (iv : Text) (p : P)
      → open_text other iv (lock_text key iv p) ≡ (if text_eq key other then some p else none)
  unfolding open_text lock_text
  open_text-lock_text key other iv p =
      rw (get_text-put_text key (put p []), ◌>>=◌, get-put p []) refl

  pub opens_own : (key : Key) (iv : Text) (p : P) → open_text key iv (lock_text key iv p) ≡ some p
  opens_own key iv p = open_text-lock_text key key iv p ∙ rw (text_eq_refl key) refl

  pub opens_same :
      (key other : Key) (iv : Text) (p q : P)
      → open_text other iv (lock_text key iv p) ≡ some q
      → q ≡ p
  opens_same key other iv p q h = elim (Bool-cases (text_eq key other)) [
    | inl e ↦ some-injective _ _ (sym h ∙ (open_text-lock_text key other iv p ∙ rw e refl))
    | inr e ↦ absurd (ground (arith, h, e, open_text-lock_text key other iv p))
  ]

  abbrev pub toy : Cipher P
  toy = record {
    encrypt = lock_text;
    decrypt = open_text;
    decrypt_encrypt = opens_own;
    decrypt_authentic = opens_same;
  }

abbrev pub toy_vault : Cipher Plain
toy_vault = toy put_plain get_plain get_plain-put_plain

abbrev pub toy_seals : Cipher Preimage
toy_seals = toy put_preimage get_preimage get_preimage-put_preimage
