-- ===== src/Tests/Parts.antt =====
-- History readings, header chunks and name checks on concrete inputs (src/core/inclusion.ts,
-- src/core/headerstore.ts, src/core/namegate.ts, src/core/namecache.ts, src/core/offerxcheck.ts).
use cairn_wallet.Base.{
  ℕ, ◌≡◌, ◌↔◌, refl, Bool, true, false, none, Option, some, List, [], ◌∷◌, ◌++◌, length, arith,
  ◌==◌,
}
use cairn_wallet.Base.Text.{Text, codes, text_eq, lower}
use cairn_wallet.Codec.{Bytes}
use cairn_wallet.Inclusion.{Reading, was_spent, was_open, after_readings}
use cairn_wallet.Inclusion.Gone.{IsBacked, after_readings-IsBacked}
use cairn_wallet.Base.Eq.{nat_eq, has, add, lookup}
use cairn_wallet.Names.Gate.{
  NameRecord, nset, replied, read_name_record, name_act_sign_refusal, IsSignable,
  name_act_sign_refusal-IsSignable,
}
use cairn_wallet.Names.HintSet.{HintPair, HintSetEntry, SkipQuery, evaluate_hint_set_skip}
use cairn_wallet.Names.HintSet.Skipped.{IsUnchanged, evaluate_hint_set_skip-IsUnchanged}
use cairn_wallet.Spend.Outputs.{is_hex_text}
use cairn_wallet.CrossCheck.{absent, Offer, CrossCheckCtx, held_until, second_source_offer_conflict}
use cairn_wallet.CrossCheck.Evidence.{IsShown, second_source_offer_conflict-IsShown}
use cairn_wallet.Tests.Sample.{copies}
use cairn_wallet.Headers.{ChunkSpec, ChunkLru, acquire, spec_of}
use cairn_wallet.Headers.Verified.{IsCache, IsSafe, acquire-IsSafe}

abbrev readings : List (Reading × ℕ)
readings = (was_spent, 12) ∷ (was_spent, 11) ∷ (was_open, 10) ∷ []

seen_gone : (after_readings readings).gone ≡ true
unfolding after_readings
seen_gone = refl

after_readings-IsBacked_example : IsBacked readings (after_readings readings)
after_readings-IsBacked_example = after_readings-IsBacked readings

abbrev table : List Text
table = codes "0xaa" ∷ codes "0xbb" ∷ []

-- accepts two records and nothing else
abbrev two_records : Bytes → ChunkSpec → Bool
two_records r spec = length r == 2

abbrev corrupt : ℕ → Option Bytes
corrupt k = some (9 ∷ [])

abbrev served : ChunkSpec → Option Bytes
served spec = some (1 ∷ 2 ∷ [])

abbrev cold : ChunkLru
cold = record { entries = []; capacity = 8 }

cold-IsCache : IsCache table two_records cold
cold-IsCache = record { bounded = omega arith; verified = tt }

acquire-IsSafe_example :
    IsSafe table two_records
      (spec_of table two_records corrupt served 33000)
      (acquire table two_records corrupt served 33000 (λ c. c) cold)
acquire-IsSafe_example =
    acquire-IsSafe table two_records corrupt served 33000 (λ c. c) cold (λ d h. h) cold-IsCache

abbrev mine : NameRecord
mine = record { owner = some (codes "0xAA"); pending = false; expired = false }

name_act_sign_refusal-IsSignable_example :
    (name_act_sign_refusal nset (read_name_record (replied 200 (some mine))) (codes "0xaa") ≡ none)
    ↔ IsSignable nset (codes "0xaa") (replied 200 (some mine))
name_act_sign_refusal-IsSignable_example =
    name_act_sign_refusal-IsSignable nset (replied 200 (some mine)) (codes "0xaa")

abbrev pairs : List HintPair
pairs =
    record { txid = codes "0x1"; height = 40000 }
    ∷ record { txid = codes "0x2"; height = 40000 }
    ∷ []

abbrev entry : HintSetEntry
entry = record {
  pairs = pairs;
  hashes = (40000, codes "0xC0") ∷ [];
  addr = codes "0xaa";
  ts = 5000;
  epoch = 12;
}

abbrev query : SkipQuery
query = record {
  pairs = pairs;
  claims = record { addr = some (codes "0xAA"); lapsed = false } ∷ [];
  conflict = false;
  existence_disagree = false;
  below_floor = false;
  now = 60000;
  epoch = some 12;
  hash_at = some (λ h. some (codes "0xc0"));
}

evaluate_hint_set_skip-IsUnchanged_example :
    (e : HintSetEntry) × (some entry ≡ some e) × IsUnchanged e query
unfolding evaluate_hint_set_skip text_eq lower lookup has add
evaluate_hint_set_skip-IsUnchanged_example =
    evaluate_hint_set_skip-IsUnchanged (some entry) query false 1 refl

abbrev rival : Offer
rival = record {
  id = codes "0x5";
  status = some (codes "open");
  paid = absent;
  delivered = absent;
  claim_txid = codes "0x" ++ copies 64 b'e';
  claim_until = some 120;
}

abbrev ours : CrossCheckCtx
ours = record {
  offer_id = codes "0x5";
  fclaim_txid = codes "0x" ++ copies 64 b'd';
  own_hold_end = some 100;
}

second_source_offer_conflict-IsShown_example :
    (s : Offer) × (some rival ≡ some s)
    × (lower s.id ≡ lower ours.offer_id)
    × IsShown s ours absent absent (held_until 120)
unfolding second_source_offer_conflict text_eq lower is_hex_text
second_source_offer_conflict-IsShown_example =
    second_source_offer_conflict-IsShown absent absent (some rival) ours (held_until 120) refl
