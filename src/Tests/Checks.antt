-- ===== src/Tests/Checks.antt =====
-- The checks behind the flows on concrete inputs (src/core/node.ts).
use cairn_wallet.Base.{
  ◌≤◌, ◌<◌, ◌≡◌, ◌↔◌, if◌then◌else◌, refl, true, false, none, some, List, [], ◌∷◌, length, All,
  arith,
}
use cairn_wallet.Base.Text.{codes, text_eq, lower}
use cairn_wallet.Base.Eq.{nat_eq, text_key, pair_eq, has, add, keys, lookup, put}
use cairn_wallet.Js.{nat, max_safe, is_safe, is_positive, val_uint64, to_uint64}
use cairn_wallet.Codec.{hb_fixed, u64, txid}
use cairn_wallet.Spend.Coins.{Outpoint, Coin, op_key, spendable_coins}
use cairn_wallet.Spend.Verify.{answered, verify_input_values}
use cairn_wallet.Spend.Verify.Sound.{Backed, IsVerified, IsVerified-nil, verify_input_values-Backed}
use cairn_wallet.Spend.Session.{Caches, ghost, session_exclusions, remember_skip}
use cairn_wallet.Spend.Session.Invariant.{IsSession, remember_skip-IsSession}
use cairn_wallet.Spend.Select.{select_verified}
use cairn_wallet.Spend.Select.Sound.{IsFunded, select_verified-IsFunded}
use cairn_wallet.Spend.Assemble.{max_fee, proportional_fee_cap}
use cairn_wallet.Spend.MaxSend.{max_sendable}
use cairn_wallet.Spend.MaxSend.Funded.{IsPaid, max_sendable-IsPaid}
use cairn_wallet.Net.{HttpReply, responded, fields, post}
use cairn_wallet.Spend.Submit.{submit_result}
use cairn_wallet.Spend.Submit.Codes.{accepts, verdict, is_rejected, submit_result_classified}
use cairn_wallet.Spend.Outputs.{
  Payout, is_hex_text, amount, validate_outputs, payments, sum_payments,
}
use cairn_wallet.Spend.Outputs.Sum.{IsPayable, validate_outputs_exact}
use cairn_wallet.Tests.Sample.{
  sample_crypto, sample_selector, sample_utxos, sample_world, sample_id, address, source_tx,
  no_caches,
}

abbrev coins : List Coin
coins =
    record { txid = sample_id; vout = 0; value = 1 }
    ∷ record { txid = sample_id; vout = 1; value = 2 }
    ∷ []

-- the reported values 1 and 2 do not matter
verify_input_values-Backed_example :
    Backed sample_crypto coins 1100000000
    × (1100000000 ≤ max_safe)
    × IsVerified sample_crypto
        (verify_input_values sample_crypto (λ c. answered (some source_tx)) coins []).1
unfolding verify_input_values lookup text_eq has is_safe txid hb_fixed u64 val_uint64 to_uint64
    lower put op_key
verify_input_values-Backed_example =
    verify_input_values-Backed sample_crypto (λ c. answered (some source_tx)) coins [] 1100000000
      (IsVerified-nil sample_crypto) refl

abbrev held : Outpoint
held = op_key sample_id 0

no_caches-IsSession : IsSession no_caches
unfolding lookup
no_caches-IsSession = record {
  ghosts_bounded = omega arith;
  horizons_bounded = omega arith;
  unreps_bounded = omega arith;
  ghosts_horizons = λ k. refl;
  ghosts_unreps = λ k. refl;
  horizons_unreps = λ k. refl;
}

remember_skip-IsSession_example : IsSession (remember_skip ghost held 1000 no_caches)
remember_skip-IsSession_example =
    remember_skip-IsSession ghost held 1000 no_caches no_caches-IsSession

abbrev one_ghost : Caches
one_ghost = remember_skip ghost held 1000 no_caches

one_ghost-IsSession : IsSession one_ghost
one_ghost-IsSession = remember_skip-IsSession ghost held 1000 no_caches no_caches-IsSession

abbrev requested : List Payout
requested = record { to = address; value = nat 3 } ∷ record { to = address; value = nat 4 } ∷ []

validate_outputs_exact_example :
    (7 ≡ sum_payments (payments requested))
    × (7 ≤ max_safe)
    × All IsPayable requested
    × (length requested ≤ 500)
    × (true ≡ true → 0 < length requested)
unfolding validate_outputs is_hex_text text_eq is_positive is_safe amount
validate_outputs_exact_example = validate_outputs_exact requested 500 true 7 refl

abbrev coins_of_sample : List Coin
coins_of_sample =
    record { txid = sample_id; vout = 0; value = 500000000 }
    ∷ record { txid = sample_id; vout = 1; value = 600000000 }
    ∷ []

select_verified-IsFunded_example :
    let r =
      (select_verified sample_crypto sample_selector 1000
        (some sample_utxos)
        (λ _ _ _. 700001000)
        sample_world.ask
        no_caches
        []).1 in
    IsFunded sample_crypto (session_exclusions 1000 no_caches).1 r.need coins_of_sample 1100000000
    × (r.need ≡ 700001000)
unfolding select_verified has session_exclusions keys verify_input_values lookup text_eq is_safe
    txid hb_fixed u64 val_uint64 to_uint64 lower put op_key
select_verified-IsFunded_example =
    select_verified-IsFunded sample_crypto sample_selector 1000 sample_utxos (λ _ _ _. 700001000)
      sample_world.ask no_caches [] coins_of_sample 1100000000 (IsVerified-nil sample_crypto) refl

max_sendable-IsPaid_example :
    (is_positive (nat 1000) ≡ true)
    × (is_safe (nat 1000) ≡ true)
    × (amount (nat 1000) ≤ max_fee)
    × IsPaid sample_crypto sample_selector sample_world 1099999000 (amount (nat 1000)) 2
unfolding max_sendable select_verified has add session_exclusions keys verify_input_values lookup
    text_eq is_safe is_positive txid hb_fixed u64 val_uint64 to_uint64 lower put op_key
    spendable_coins amount proportional_fee_cap
max_sendable-IsPaid_example =
    max_sendable-IsPaid sample_crypto sample_selector sample_world (nat 1000) 1099999000 2 2 0 false
      refl (omega arith)

-- a rejection that gives its reason under the second of the two names
abbrev conflict : HttpReply
conflict = responded 400 (
    fields (record {
      ok = false;
      err = none;
      error = some (codes "tx Already Present or mempool conflict");
      txid = none;
      claims_inflight = false;
    }))

submit_result_classified_example :
    let s = submit_result sample_id (post conflict) in
    (s.code ≡ verdict conflict)
    × (s.ok ≡ accepts conflict)
    × ((s.code ≡ none) ↔ (s.ok ≡ true))
    × (s.txid ≡ (if is_rejected s.code then none else some sample_id))
submit_result_classified_example = submit_result_classified sample_id conflict
