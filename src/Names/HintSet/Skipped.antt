-- ===== src/Names/HintSet/Skipped.antt =====
-- What a skipped proof rests on (src/core/namecache.ts `evaluateHintSetSkip`).
use cairn_wallet.Base.{
  ℕ, ◌+◌, ◌≤◌, ◌≡◌, refl, Bool, true, false, Option, none, some, List, [], ◌∷◌, any, map, ==_iff,
  arith, inl, inr, Bool-cases,
}
use cairn_wallet.Base.Text.{Text, eq_of_text_eq}
use cairn_wallet.Base.Eq.{nat_eq, ◌===◌, has, add, has-add, lookup}
use cairn_wallet.Names.HintSet.{
  HintPair, HintSetEntry, hint_pairs_equal, Claim, ClaimsMeta, claims_meta, heights_from, same_hash,
  all_hashes, skip, SkipQuery, skip_hashes, skip_at, evaluate_hint_set_skip, hintset_ttl_ms,
}

pub hint_pairs_equal_iff : (ps qs : List HintPair) → hint_pairs_equal ps qs ≡ true → ps ≡ qs
unfolding hint_pairs_equal
hint_pairs_equal_iff [] [] h = refl
hint_pairs_equal_iff [] (q ∷ qs) h = absurd (cc)
hint_pairs_equal_iff (p ∷ ps) [] h = absurd (cc)
hint_pairs_equal_iff (p ∷ ps) (q ∷ qs) h =
    ground (arith, hint_pairs_equal_iff ps qs, eq_of_text_eq p.txid q.txid)

-- every height seen, or of a pair, is read
has-heights_from-seen :
    (n : ℕ) (seen : List ℕ) (ps : List HintPair)
    → has n seen ≡ true
    → has n (heights_from seen ps) ≡ true
unfolding heights_from
has-heights_from-seen n seen [] h = h
has-heights_from-seen n seen (p ∷ ps) h =
    has-heights_from-seen n (add p.height seen) ps (ground (arith, has-add n p.height seen))

has-heights_from :
    (n : ℕ) (seen : List ℕ) (ps : List HintPair)
    → has n (map (λ (p : HintPair). p.height) ps) ≡ true
    → has n (heights_from seen ps) ≡ true
unfolding heights_from has
has-heights_from n seen [] h = absurd (cc)
has-heights_from n seen (p ∷ ps) h = elim (Bool-cases (n === p.height)) [
  | inl e ↦ has-heights_from-seen n (add p.height seen) ps (ground (arith, has-add n p.height seen))
  | inr e ↦ has-heights_from n (add p.height seen) ps (ground arith)
]

all_hashes-has :
    (hash_at : ℕ → Option Text) (hashes : List (ℕ × Text)) (hs : List ℕ) (n : ℕ)
    → all_hashes hash_at hashes hs ≡ true
    → has n hs ≡ true
    → same_hash (hash_at n) (lookup n hashes) ≡ true
unfolding all_hashes has
all_hashes-has hash_at hashes [] n h m = absurd (cc)
all_hashes-has hash_at hashes (k ∷ hs) n h m = elim (Bool-cases (n === k)) [
  | inl e ↦ let same : n ≡ k = (nat_eq.beq_iff n k).0 e in rw same (ground arith)
  | inr e ↦ all_hashes-has hash_at hashes hs n (ground arith) (ground arith)
]

-- What the reviewed set and the fresh reads agree on.
pub record IsUnchanged (e : HintSetEntry) (q : SkipQuery) : Type 0 where
  pub fresh : q.now ≤ e.ts + hintset_ttl_ms
  pub same_epoch : q.epoch ≡ some e.epoch
  pub same_pairs : e.pairs ≡ q.pairs
  pub none_lapsed : any (λ (c : Claim). c.lapsed) q.claims ≡ false
  pub hash_at : ℕ → Option Text
  pub reader : q.hash_at ≡ some hash_at
  pub same_hashes :
      (n : ℕ)
      → has n (map (λ (p : HintPair). p.height) e.pairs) ≡ true
      → same_hash (hash_at n) (lookup n e.hashes) ≡ true

skip_hashes_parts :
    (e : HintSetEntry) (m : ClaimsMeta) (o : Option (ℕ → Option Text)) (d : Bool) (n : ℕ)
    → skip_hashes e m o ≡ skip d n
    → (hash_at : ℕ → Option Text) × (o ≡ some hash_at)
      × (all_hashes hash_at e.hashes (heights_from [] e.pairs) ≡ true)
unfolding skip_hashes
skip_hashes_parts e m none d n h = absurd (cc)
skip_hashes_parts e m (some f) d n h = (f, refl, ground arith)

skip_at-IsUnchanged :
    (e : HintSetEntry) (q : SkipQuery) (o : Option ℕ) (d : Bool) (n : ℕ)
    → q.epoch ≡ o
    → skip_at e q o ≡ skip d n
    → IsUnchanged e q
unfolding skip_at claims_meta
skip_at-IsUnchanged e q none d n f h = absurd (cc)
skip_at-IsUnchanged e q (some now_epoch) d n f h =
    let m = claims_meta q.claims e.addr q.conflict q.existence_disagree q.below_floor in
    let last : skip_hashes e m q.hash_at ≡ skip d n = ground arith in
    let (g, r, a) = skip_hashes_parts e m q.hash_at d n last in
    record {
      fresh = ground arith;
      same_epoch = ground (arith, ==_iff now_epoch e.epoch);
      same_pairs = hint_pairs_equal_iff e.pairs q.pairs (ground arith);
      none_lapsed = ground arith;
      hash_at = g;
      reader = r;
      same_hashes = λ k m.
          all_hashes-has g e.hashes (heights_from [] e.pairs) k a (has-heights_from k [] e.pairs m);
    }

-- The confirm step skips the proof only for a set that was reviewed at most two minutes ago in the same epoch, with
-- exactly the hints that are served now, no source that reports a lapse, and the remembered header hash at the height
-- of every hint.
pub evaluate_hint_set_skip-IsUnchanged :
    (c : Option HintSetEntry) (q : SkipQuery) (d : Bool) (n : ℕ)
    → evaluate_hint_set_skip c q ≡ skip d n
    → (e : HintSetEntry) × (c ≡ some e) × IsUnchanged e q
unfolding evaluate_hint_set_skip
evaluate_hint_set_skip-IsUnchanged none q d n h = absurd (cc)
evaluate_hint_set_skip-IsUnchanged (some e) q d n h =
    (e, refl, skip_at-IsUnchanged e q q.epoch d n refl h)
