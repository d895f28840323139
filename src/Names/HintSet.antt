-- ===== src/Names/HintSet.antt =====
-- When the confirm step may skip the proof of a name (src/core/namecache.ts).
pub mod Skipped
use cairn_wallet.Base.{
  ℕ, ◌+◌, Bool, true, false, ◌&&◌, ◌||◌, not, Option, none, some, List, [], ◌∷◌, length, any, ltb,
  leb, ◌==◌, if◌then◌else◌,
}
use cairn_wallet.Base.Text.{Text, text_eq, lower}
use cairn_wallet.Base.Eq.{nat_eq, has, add, lookup}

abbrev pub hintset_ttl_ms : ℕ
hintset_ttl_ms = 120000

pub record HintPair : Type 0 where
  pub txid : Text
  pub height : ℕ

-- the fields of `HintSetEntry` that the skip reads
pub record HintSetEntry : Type 0 where
  pub pairs : List HintPair
  pub hashes : List (ℕ × Text)
  pub addr : Text
  pub ts : ℕ
  pub epoch : ℕ

unfoldable pub hint_pairs_equal : List HintPair → List HintPair → Bool
hint_pairs_equal [] [] = true
hint_pairs_equal [] (q ∷ qs) = false
hint_pairs_equal (p ∷ ps) [] = false
hint_pairs_equal (p ∷ ps) (q ∷ qs) =
    text_eq p.txid q.txid && (p.height == q.height && hint_pairs_equal ps qs)

-- what one source claims
pub record Claim : Type 0 where
  pub addr : Option Text
  pub lapsed : Bool

disagrees : Text → Claim → Bool
disagrees want c = elim c.addr [ none ↦ true | some a ↦ not (text_eq (lower a) want) ]

pub record ClaimsMeta : Type 0 where
  pub disagree : Bool
  pub sources : ℕ
  pub any_lapsed : Bool

unfoldable pub claims_meta :
    List Claim
    → (proven_addr : Text) → (conflict existence_disagree below_floor : Bool) → ClaimsMeta
unfolding disagrees
claims_meta claims proven_addr conflict existence_disagree below_floor = record {
  disagree =
      any (disagrees (lower proven_addr)) claims
      || (conflict || (existence_disagree || below_floor));
  sources = length claims;
  any_lapsed = any (λ (c : Claim). c.lapsed) claims;
}

-- `[...new Set(cache.pairs.map((p) => p.height))]`, from the heights seen so far
heights_from : List ℕ → List HintPair → List ℕ
heights_from seen [] = seen
heights_from seen (p ∷ ps) = heights_from (add p.height seen) ps

unfoldable pub is_text : Text → Bool
is_text [] = false
is_text (c ∷ t) = true

-- a live hash and a remembered one, both there and not empty, that agree
unfoldable pub same_hash : Option Text → Option Text → Bool
same_hash (some live) (some want) =
    is_text live && (is_text want && text_eq (lower live) (lower want))
same_hash _ _ = false

-- the loop over the heights
all_hashes : (ℕ → Option Text) → List (ℕ × Text) → List ℕ → Bool
all_hashes hash_at hashes [] = true
all_hashes hash_at hashes (h ∷ hs) =
    same_hash (hash_at h) (lookup h hashes) && all_hashes hash_at hashes hs

pub data Reason : Type 0 where
  no_hint_set no_epoch ttl epoch hint_set lapsed no_hash_at header_hash : Reason

pub data Skip : Type 0 where
  skip : (disagree : Bool) (sources : ℕ) → Skip
  verify : Reason → Skip

pub record SkipQuery : Type 0 where
  pub pairs : List HintPair
  pub claims : List Claim
  pub conflict : Bool
  pub existence_disagree : Bool
  pub below_floor : Bool
  pub now : ℕ
  pub epoch : Option ℕ
  pub hash_at : Option (ℕ → Option Text)

-- the last test, with a reader of header hashes
skip_hashes : HintSetEntry → ClaimsMeta → Option (ℕ → Option Text) → Skip
unfolding all_hashes heights_from same_hash is_text
skip_hashes e m none = verify no_hash_at
skip_hashes e m (some hash_at) =
    if all_hashes hash_at e.hashes (heights_from [] e.pairs)
    then skip m.disagree m.sources
    else verify header_hash

skip_at : HintSetEntry → SkipQuery → Option ℕ → Skip
unfolding skip_hashes claims_meta hint_pairs_equal
skip_at e q none = verify no_epoch
skip_at e q (some now_epoch) =
    let m = claims_meta q.claims e.addr q.conflict q.existence_disagree q.below_floor in
    if ltb (e.ts + hintset_ttl_ms) q.now
    then verify ttl
    else if not (now_epoch == e.epoch)
    then verify epoch
    else if not (hint_pairs_equal e.pairs q.pairs)
    then verify hint_set
    else if m.any_lapsed
    then verify lapsed
    else skip_hashes e m q.hash_at

unfoldable pub evaluate_hint_set_skip : Option HintSetEntry → SkipQuery → Skip
unfolding skip_at
evaluate_hint_set_skip none q = verify no_hint_set
evaluate_hint_set_skip (some e) q = skip_at e q q.epoch
