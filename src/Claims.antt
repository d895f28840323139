-- ===== src/Claims.antt =====
-- The sealed claims of an account (src/core/claims.ts): commit-reveal records whose preimages are encrypted under the
-- vault key until they are revealed. Every piece of work on the write chain is one step on this state.
pub mod Lists
pub mod Held
pub mod Sealing
use cairn_wallet.Base.{
  ℕ, ◌-◌, Bool, true, false, ◌&&◌, ◌||◌, not, Option, none, some, List, [], ◌∷◌, ◌++◌, map, keep,
  any, find, length, leb, ltb, if◌then◌else◌,
}
use cairn_wallet.Base.{◌⊎◌, inl, inr}
use cairn_wallet.Base.Text.{Text, text_eq}
use cairn_wallet.Base.Eq.{text_key, add, lookup, put}
use cairn_wallet.Vault.{Result, ok, err, or_throw, ◌>>=◌, locked}
use cairn_wallet.Vault.Keystore.{Key, Cipher, Sealed, seal_with, open_with}
use cairn_wallet.History.{Disk}

pub record Preimage : Type 0 where
  pub claim : Text
  pub nonce : Text

-- A sealed claim: `enc`, or, in a record of an old version, `claim` and `nonce` in clear.
pub record SealRec : Type 0 where
  pub txid : Text
  pub domain : Text
  pub enc : Option Sealed
  pub claim : Option Text
  pub nonce : Option Text
  pub revealed : Bool

abbrev pub SealLists : Type 0
SealLists = List (Text × List SealRec)

pub record Claims : Type 0 where
  pub stored : SealLists
  -- `pendingSeals`
  pub parked : List (Text × SealRec)

-- What a host holds when the work runs: `vaultKey()` is `none` while locked.
pub record SealKey : Type 0 where
  pub key : Option Key
  pub salt : Text
  pub iter : ℕ

abbrev seals_or_empty : Option (List SealRec) → List SealRec
seals_or_empty none = []
seals_or_empty (some l) = l

unfoldable pub seals_at : Text → SealLists → List SealRec
seals_at k s = seals_or_empty (lookup k s)

abbrev pub seal_cap : ℕ
seal_cap = 500

-- The loop of `capSeals`, from the oldest record: what is still over, and the records that stay.
evict : ℕ → List SealRec → ℕ × List SealRec
evict over [] = (over, [])
evict over (r ∷ rs) =
    let (left, kept) = evict over rs in
    if ltb 0 left && r.revealed then (left - 1, kept) else (left, r ∷ kept)

unfoldable pub cap_seals : List SealRec → List SealRec
unfolding evict
cap_seals list =
    if leb (length list) seal_cap then list else (evict (length list - seal_cap) list).1

-- `String(rec?.claim ?? "")`
abbrev text_or_empty : Option Text → Text
text_or_empty none = []
text_or_empty (some t) = t

is_defined : Option Text → Bool
is_defined none = false
is_defined (some t) = true

-- whether a parked record is the claim of that account
abbrev pub is_parked_as : Text → Text → Text × SealRec → Bool
is_parked_as k id p = text_eq p.0 k && text_eq p.1.txid id

unfoldable pub has_seal : Text → List SealRec → Bool
has_seal id list = any (λ (x : SealRec). text_eq x.txid id) list

-- The parked records of a list that it does not have go in front.
pub merge_parked : Text → List (Text × SealRec) → List SealRec → List SealRec
unfolding has_seal
merge_parked sk [] list = list
merge_parked sk (p ∷ ps) list =
    merge_parked sk ps (if text_eq p.0 sk && not (has_seal p.1.txid list) then p.1 ∷ list else list)

-- `new Set(this.pendingSeals.map((p) => p.k))`
parked_keys : List Text → List (Text × SealRec) → List Text
parked_keys seen [] = seen
parked_keys seen (p ∷ ps) = parked_keys (add p.0 seen) ps

park_seal : (wiped : Bool) → Option (Text × SealRec) → Claims → Option Claims
park_seal wiped none c = some c
park_seal wiped (some (k, r)) c =
    if any (is_parked_as k r.txid) c.parked
    then some c
    else if wiped
    then none
    else some (record c { parked = c.parked ++ (k, r) ∷ [] })

-- The record of a claim: the stored one, else a parked one.
pub find_seal : Text → Text → Claims → Option SealRec
find_seal k id c = elim (find (λ (x : SealRec). text_eq x.txid id) (seals_at k c.stored)) [
  | some r ↦ some r
  | none ↦ elim (find (is_parked_as k id) c.parked) [ none ↦ none | some p ↦ some p.1 ]
]

-- What a reveal publishes.
pub record Content : Type 0 where
  pub commit : Text
  pub domain : Text
  pub preimage : Preimage

pub data RevealError : Type 0 where
  no_such_claim seal_not_mined cannot_open : RevealError

content_of : (is_mined : Bool) → Text → Text → Result Preimage → RevealError ⊎ Content
content_of false id domain p = inl seal_not_mined
content_of true id domain (err e) = inl cannot_open
content_of true id domain (ok p) = inr (record { commit = id; domain = domain; preimage = p })

mark_parked : Text → Text → List (Text × SealRec) → List (Text × SealRec)
mark_parked k id = map (λ (p : Text × SealRec).
    if is_parked_as k id p then (p.0, record p.1 { revealed = true }) else p)

mark_first : Text → List SealRec → List SealRec
mark_first id [] = []
mark_first id (r ∷ rs) =
    let rest = mark_first id rs in
    if text_eq r.txid id then record r { revealed = true } ∷ rs else r ∷ rest

is_legacy : SealRec → Bool
unfolding is_defined
is_legacy r = elim r.enc [ some v ↦ false | none ↦ is_defined r.claim || is_defined r.nonce ]

module _ (cipher : Cipher Preimage) where
  -- `sealPreimage`
  unfoldable pub seal_preimage : (iv : Text) → SealKey → Preimage → Result Sealed
  seal_preimage iv w p = elim w.key [
    | none ↦ err locked
    | some key ↦ ok (seal_with cipher iv p key w.salt w.iter)
  ]

  -- `openPreimage`
  unfoldable pub open_preimage : SealKey → SealRec → Result Preimage
  open_preimage w r = elim r.enc [
    | some v ↦ elim w.key [ none ↦ err locked | some key ↦ open_with cipher v key ]
    | none ↦ ok (record { claim = text_or_empty r.claim; nonce = text_or_empty r.nonce })
  ]

  reencrypt_one : (iv : Text) → Key → SealKey → SealRec → SealRec
  unfolding is_legacy
  reencrypt_one iv key w r =
      if is_legacy r
      then record r {
        enc = some (
            seal_with cipher iv
              (record { claim = text_or_empty r.claim; nonce = text_or_empty r.nonce }) key w.salt
              w.iter);
        claim = none;
        nonce = none;
      }
      else r

  -- `reencryptLegacyPreimages`; `ivs` draws a fresh one for each record.
  unfoldable pub reencrypt : (ivs : SealRec → Text) → SealKey → List SealRec → List SealRec
  unfolding reencrypt_one
  reencrypt ivs w list = elim w.key [
    | none ↦ list
    | some key ↦ map (λ (r : SealRec). reencrypt_one (ivs r) key w r) list
  ]

  -- One round of the loop of `persistSeal`: where the store throws, all stays parked.
  write_list : (ivs : SealRec → Text) → SealKey → Disk → Text → Claims → Claims
  unfolding reencrypt merge_parked
  write_list ivs w disk sk c =
      if disk.reads && disk.writes
      then record {
        stored =
            put sk (cap_seals (reencrypt ivs w (merge_parked sk c.parked (seals_at sk c.stored))))
              c.stored;
        parked = keep (λ (p : Text × SealRec). not (text_eq p.0 sk)) c.parked;
      }
      else c

  write_lists : (ivs : SealRec → Text) → SealKey → (Text → Disk) → List Text → Claims → Claims
  unfolding write_list
  write_lists ivs w disks [] c = c
  write_lists ivs w disks (sk ∷ sks) c =
      write_lists ivs w disks sks (write_list ivs w (disks sk) sk c)

  -- `persistSeal`
  unfoldable pub persist_seal :
      (unlocked wiped : Bool) (ivs : SealRec → Text)
      → SealKey
      → (Text → Disk)
      → Option (Text × SealRec)
      → Claims
      → Claims
  unfolding park_seal write_lists parked_keys
  persist_seal unlocked wiped ivs w disks new c = elim (park_seal wiped new c) [
    | none ↦ c
    | some c' ↦ if unlocked then write_lists ivs w disks (parked_keys [] c'.parked) c' else c'
  ]

  -- The part of `revealClaim` up to the registration: `is_mined` is whether the node shows the commit mined.
  unfoldable pub reveal_content :
      (is_mined : Text → Bool) → SealKey → Text → Text → Claims → RevealError ⊎ Content
  unfolding find_seal open_preimage content_of
  reveal_content is_mined w k id c = elim (find_seal k id c) [
    | none ↦ inl no_such_claim
    | some r ↦ content_of (is_mined id) id r.domain (open_preimage w r)
  ]

  -- The chained write of `revealClaim`: the first stored record of the id is marked, and the parked ones.
  unfoldable pub mark_revealed :
      (unlocked : Bool) (ivs : SealRec → Text) → SealKey → Disk → Text → Text → Claims → Claims
  unfolding mark_parked mark_first has_seal reencrypt
  mark_revealed unlocked ivs w disk k id c =
      let fresh = seals_at k c.stored in
      if not unlocked then c else record {
        stored =
            if disk.reads && (has_seal id fresh && disk.writes)
            then put k (reencrypt ivs w (mark_first id fresh)) c.stored
            else c.stored;
        parked = mark_parked k id c.parked;
      }

  -- `revealClaim`: what was published, if anything, and the state; `c` is what it reads first, `late` what its chained
  -- write meets, and `register` the answer of the registration.
  unfoldable pub reveal_claim :
      (is_mined : Text → Bool) (register : Content → Bool) (unlocked : Bool) (ivs : SealRec → Text)
      → SealKey
      → Disk
      → Text
      → Text
      → Claims
      → (late : Claims) → Option Content × Claims
  unfolding reveal_content mark_revealed
  reveal_claim is_mined register unlocked ivs w disk k id c late =
      elim (reveal_content is_mined w k id c) [
        | inl e ↦ (none, late)
        | inr m ↦ (some m, if register m then mark_revealed unlocked ivs w disk k id late else late)
      ]

  preview : SealKey → SealRec → SealRec
  unfolding open_preimage
  preview w r = elim r.enc [
    | none ↦ r
    | some v ↦ elim (open_preimage w r) [ err e ↦ r | ok p ↦ record r { claim = some p.claim } ]
  ]

  -- `sealedClaims`: the parked records that are not stored, before the stored ones, each with its claim to read
  unfoldable pub sealed_claims : (unlocked : Bool) → SealKey → Text → Claims → List SealRec
  unfolding preview
  sealed_claims unlocked w k c =
      if unlocked
      then map (preview w) (
          map (λ (p : Text × SealRec). p.1)
            (keep
              (λ (p : Text × SealRec).
                text_eq p.0 k && not (has_seal p.1.txid (seals_at k c.stored)))
              c.parked)
          ++ seals_at k c.stored)
      else []
