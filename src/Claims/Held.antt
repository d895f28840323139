-- ===== src/Claims/Held.antt =====
-- No unrevealed claim is lost (src/core/claims.ts `persistSeal`, `capSeals`).
use cairn_wallet.Base.{
  subst, ◌≡◌, refl, ap, ◌∙◌, inl, inr, Bool, true, false, ◌&&◌, ◌||◌, not, Option, none, some, List,
  [], ◌∷◌, ◌++◌, keep, any, arith, Bool-cases, Option-cases, &&_split, if◌then◌else◌,
}
use cairn_wallet.Base.Text.{Text, text_eq, text_eq_iff}
use cairn_wallet.Base.Eq.{text_key, put}
use cairn_wallet.Vault.Keystore.{Cipher}
use cairn_wallet.History.{Disk}
use cairn_wallet.Claims.{
  Preimage, SealRec, Claims, SealKey, seals_at, cap_seals, is_parked_as, has_seal, merge_parked,
  parked_keys, park_seal, reencrypt, write_list, write_lists, persist_seal,
}
use cairn_wallet.Claims.Lists.{
  is_open_in, holds, is_open, has_seal-cap_seals, has_seal-merge_parked, is_open_in-merge_parked,
  has_seal-reencrypt, seals_at-put, any-keep, any-keep-other, IsSealed,
}

module _ (cipher : Cipher Preimage) (ivs : SealRec → Text) (w : SealKey) (k id : Text) where
  written-IsSealed :
      (c : Claims)
      → IsSealed k id c
      → IsSealed k id (record {
        stored =
            put k
              (cap_seals (reencrypt cipher ivs w (merge_parked k c.parked (seals_at k c.stored))))
              c.stored;
        parked = keep (λ (p : Text × SealRec). not (text_eq p.0 k)) c.parked;
      })
  written-IsSealed c h =
      let merged : List SealRec = merge_parked k c.parked (seals_at k c.stored) in
      let list : List SealRec = reencrypt cipher ivs w merged in
      let (re_has, re_open) = has_seal-reencrypt cipher ivs w id merged in
      let has_m : has_seal id merged ≡ true =
        has_seal-merge_parked k id c.parked (seals_at k c.stored) ∙ h.0 in
      let open_m : is_open_in id merged ≡ false =
        is_open_in-merge_parked k id c.parked (seals_at k c.stored) (ground (arith, h))
          (ground (arith, h)) in
      let (cap_has, cap_open) = has_seal-cap_seals id list (re_open ∙ open_m) in
      let at : seals_at k (put k (cap_seals list) c.stored) ≡ cap_seals list =
        seals_at-put k k (cap_seals list) c.stored
        ∙ ap (λ (b : Bool). if b then cap_seals list else seals_at k c.stored)
            ((text_eq_iff k k).1 refl) in
      let has_at : has_seal id (seals_at k (put k (cap_seals list) c.stored)) ≡ true =
        ap (has_seal id) at ∙ (cap_has ∙ (re_has ∙ has_m)) in
      let open_at : is_open_in id (seals_at k (put k (cap_seals list) c.stored)) ≡ false =
        ap (is_open_in id) at ∙ cap_open in
      let closed : any (λ (p : Text × SealRec). is_parked_as k id p && p.1.revealed)
            (keep (λ (p : Text × SealRec). not (text_eq p.0 k)) c.parked)
          ≡ false =
        any-keep k (λ (p : Text × SealRec). is_parked_as k id p && p.1.revealed) c.parked
          (ground (arith, h)) in
      (rw has_at (ground arith), rw (closed, open_at) refl)

  other-IsSealed :
      (sk : Text) (rows : List SealRec) (c : Claims)
      → text_eq k sk ≡ false
      → IsSealed k id c
      → IsSealed k id (record {
        stored = put sk rows c.stored;
        parked = keep (λ (p : Text × SealRec). not (text_eq p.0 sk)) c.parked;
      })
  other-IsSealed sk rows c e h =
      let at : seals_at k (put sk rows c.stored) ≡ seals_at k c.stored =
        seals_at-put k sk rows c.stored
        ∙ ap (λ (b : Bool). if b then rows else seals_at k c.stored) e in
      let closed : any (λ (p : Text × SealRec). is_parked_as k id p && p.1.revealed)
            (keep (λ (p : Text × SealRec). not (text_eq p.0 sk)) c.parked)
          ≡ false =
        any-keep sk (λ (p : Text × SealRec). is_parked_as k id p && p.1.revealed) c.parked
          (ground (arith, h)) in
      (rw (any-keep-other sk k id c.parked e, at) h.0, rw (closed, at) (ground (arith, h)))

  write_list-IsSealed :
      (disk : Disk) (sk : Text) (c : Claims)
      → IsSealed k id c
      → IsSealed k id (write_list cipher ivs w disk sk c)
  unfolding write_list
  write_list-IsSealed disk sk c h = elim (Bool-cases (disk.reads && disk.writes)) [
    | inr d ↦ rw d h
    | inl d ↦ rw d (elim (Bool-cases (text_eq k sk)) [
      | inr e ↦
          other-IsSealed sk
            (cap_seals (reencrypt cipher ivs w (merge_parked sk c.parked (seals_at sk c.stored)))) c
            e h
      | inl e ↦ rw (← (text_eq_iff k sk).0 e) (written-IsSealed c h)
    ])
  ]

  write_lists-IsSealed :
      (disks : Text → Disk) (sks : List Text) (c : Claims)
      → IsSealed k id c
      → IsSealed k id (write_lists cipher ivs w disks sks c)
  unfolding write_lists
  write_lists-IsSealed disks [] c h = h
  write_lists-IsSealed disks (sk ∷ sks) c h =
      write_lists-IsSealed disks sks (write_list cipher ivs w (disks sk) sk c)
        (write_list-IsSealed (disks sk) sk c h)

-- the call brings the record of the account's claim
abbrev pub adds : Text → Text → Option (Text × SealRec) → Bool
adds k id none = false
adds k id (some p) = is_parked_as k id p

abbrev pub adds_revealed : Option (Text × SealRec) → Bool
adds_revealed none = false
adds_revealed (some p) = p.1.revealed

any-append :
    (q : Text × SealRec → Bool) (ps : List (Text × SealRec)) (p : Text × SealRec)
    → any q (ps ++ p ∷ []) ≡ (any q ps || q p)
any-append q [] p = ground arith
any-append q (x ∷ ps) p = ground (arith, any-append q ps p)

any-same :
    (j i k id : Text) (ps : List (Text × SealRec))
    → (text_eq j k && text_eq i id) ≡ true
    → any (is_parked_as j i) ps ≡ true
    → any (is_parked_as k id) ps ≡ true
any-same j i k id ps e h =
    let (a, b) = &&_split e in rw (← (text_eq_iff j k).0 a) (rw (← (text_eq_iff i id).0 b) h)

-- What parking leaves: nothing is lost, and what it drops was dropped after a reset.
Parks : Text → Text → Claims → Option Claims → Type 0
Parks k id c none = holds k id c ≡ true
Parks k id c (some c') = IsSealed k id c'

park_seal-Parks :
    (k id : Text) (wiped : Bool) (new : Option (Text × SealRec)) (c : Claims)
    → is_open k id c ≡ false
    → (adds k id new ≡ true → adds_revealed new ≡ false)
    → (holds k id c || (adds k id new && not wiped)) ≡ true
    → Parks k id c (park_seal wiped new c)
unfolding park_seal Parks
park_seal-Parks k id wiped none c o r h = (ground (arith, h), o)
park_seal-Parks k id wiped (some (j, e)) c o r h =
    elim (Bool-cases (any (is_parked_as j e.txid) c.parked)) [
      | inl p ↦ rw p (ground (arith, h, any-same j e.txid k id c.parked, p), o)
      | inr p ↦ elim (Bool-cases wiped) [
        | inl x ↦ rw (p, x) (ground (arith, h, x))
        | inr x ↦
            rw (p, x)
              (
                ground (arith, h, any-append (is_parked_as k id) c.parked (j, e)),
                ground (
                  arith,
                  o,
                  r,
                  any-append (λ (q : Text × SealRec). is_parked_as k id q && q.1.revealed) c.parked
                      (j, e),
                ),
              )
      ]
    ]

module _ (cipher : Cipher Preimage) (ivs : SealRec → Text) (w : SealKey) where
  -- The record of a claim that is brought to `persistSeal`, or that is parked or stored already, is parked or stored
  -- afterwards, whichever reads and writes of the store fail and however full its list is, as long as no record of
  -- it is marked as revealed. A record that is brought after a reset is the exception.
  pub persist_seal-holds :
      (unlocked wiped : Bool) (disks : Text → Disk) (new : Option (Text × SealRec)) (c : Claims)
      (k id : Text)
      → is_open k id c ≡ false
      → (adds k id new ≡ true → adds_revealed new ≡ false)
      → (holds k id c || (adds k id new && not wiped)) ≡ true
      → holds k id (persist_seal cipher unlocked wiped ivs w disks new c) ≡ true
  unfolding persist_seal
  persist_seal-holds unlocked wiped disks new c k id o r h =
      let p : Parks k id c (park_seal wiped new c) = park_seal-Parks k id wiped new c o r h in
      elim (Option-cases (park_seal wiped new c)) [
        | inl e ↦
            let q : Parks k id c none = subst (Parks k id c) e p in
            unfold Parks in rw (e, persist_seal) q
        | inr (c', e) ↦
            let q : Parks k id c (some c') = subst (Parks k id c) e p in
            unfold Parks in
            rw (e, persist_seal)
              (elim (Bool-cases unlocked) [
                | inl u ↦
                    rw u
                      (write_lists-IsSealed cipher ivs w k id disks (parked_keys [] c'.parked) c'
                        q).0
                | inr u ↦ rw u q.0
              ])
      ]
