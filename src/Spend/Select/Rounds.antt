-- ===== src/Spend/Select/Rounds.antt =====
-- What one round of the selection keeps (src/core/node.ts).
use cairn_wallet.Base.{ℕ, ◌≤◌, ◌≡◌, refl, true, List, [], ◌∷◌, arith}
use cairn_wallet.Base.Eq.{nat_eq, text_key, pair_eq, has, has-add}
use cairn_wallet.Spend.Coins.{Outpoint, Coin, coin_key}
use cairn_wallet.Spend.Verify.{
  VerifyResult, verified, tampered, unreachable, beyond_horizon, unrepresented, ghosts_only,
}
use cairn_wallet.Spend.Session.{Class, ghost, horizon, unrep}
use cairn_wallet.Spend.Select.{Round, selected, done, skip_coin, skip_coins, settle_round}

-- The outpoints of `base` are all excluded in the state.
abbrev pub Excludes : List Outpoint → Round → Type 0
Excludes base r = (k : Outpoint) → has k base ≡ true → has k r.exclude ≡ true

skip_coin-Excludes :
    (base : List Outpoint) (class : Class) (now : ℕ) (k : Outpoint) (r : Round)
    → Excludes base r
    → Excludes base (skip_coin class now k r)
unfolding skip_coin
skip_coin-Excludes base ghost now k r h = λ j m. ground (arith, has-add j k r.exclude, h j m)
skip_coin-Excludes base horizon now k r h = λ j m. ground (arith, has-add j k r.exclude, h j m)
skip_coin-Excludes base unrep now k r h = λ j m. ground (arith, has-add j k r.exclude, h j m)

known-skip_coin :
    (class : Class) (now : ℕ) (k : Outpoint) (r : Round) → (skip_coin class now k r).known ≡ r.known
unfolding skip_coin
known-skip_coin ghost now k r = refl
known-skip_coin horizon now k r = refl
known-skip_coin unrep now k r = refl

pub skip_coins-Excludes :
    (base : List Outpoint) (class : Class) (now : ℕ) (cs : List Coin) (r : Round)
    → Excludes base r
    → Excludes base (skip_coins class now cs r)
unfolding skip_coins
skip_coins-Excludes base class now [] r h = h
skip_coins-Excludes base class now (c ∷ cs) r h =
    skip_coins-Excludes base class now cs (skip_coin class now (coin_key c) r)
      (skip_coin-Excludes base class now (coin_key c) r h)

pub known-skip_coins :
    (class : Class) (now : ℕ) (cs : List Coin) (r : Round)
    → (skip_coins class now cs r).known ≡ r.known
unfolding skip_coins
known-skip_coins class now [] r = refl
known-skip_coins class now (c ∷ cs) r =
    rw (known-skip_coins class now cs (skip_coin class now (coin_key c) r))
      (known-skip_coin class now (coin_key c) r)

pub known-settle_round :
    (now : ℕ) (ins : List Coin) (ver : VerifyResult) (r : Round)
    → (settle_round now ins ver r).1.known ≡ r.known
unfolding settle_round
known-settle_round now ins (verified t) r = ground arith
known-settle_round now ins tampered r = refl
known-settle_round now ins unreachable r = refl
known-settle_round now ins (beyond_horizon hs gs) r =
    rw (known-skip_coins ghost now gs _) (known-skip_coins horizon now hs r)
known-settle_round now ins (unrepresented us gs) r =
    rw (known-skip_coins ghost now gs _) (known-skip_coins unrep now us r)
known-settle_round now ins (ghosts_only gs) r = known-skip_coins ghost now gs r

pub settle_round-Excludes :
    (base : List Outpoint) (now : ℕ) (ins : List Coin) (ver : VerifyResult) (r : Round)
    → Excludes base r
    → Excludes base (settle_round now ins ver r).1
unfolding settle_round
settle_round-Excludes base now ins (verified t) r h = λ k m. ground (arith, h k m)
settle_round-Excludes base now ins tampered r h = h
settle_round-Excludes base now ins unreachable r h = h
settle_round-Excludes base now ins (beyond_horizon hs gs) r h =
    skip_coins-Excludes base ghost now gs _ (skip_coins-Excludes base horizon now hs r h)
settle_round-Excludes base now ins (unrepresented us gs) r h =
    skip_coins-Excludes base ghost now gs _ (skip_coins-Excludes base unrep now us r h)
settle_round-Excludes base now ins (ghosts_only gs) r h = skip_coins-Excludes base ghost now gs r h

pub settle_round-selected :
    (now : ℕ) (ins : List Coin) (ver : VerifyResult) (r : Round) (i : List Coin) (t : ℕ)
    → (settle_round now ins ver r).0 ≡ done (selected i t)
    → (ver ≡ verified t) × (ins ≡ i) × ((settle_round now ins ver r).1 ≡ r) × (r.need ≤ t)
unfolding settle_round
settle_round-selected now ins (verified v) r i t h = ground arith
settle_round-selected now ins _ r i t h = absurd (cc)
