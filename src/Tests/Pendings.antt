-- ===== src/Tests/Pendings.antt =====
-- The queue of content to register on concrete steps (src/core/wallet.ts `addPending`, `flushPending`).
use cairn_wallet.Base.{◌≡◌, refl, true, false, none, some, List, [], ◌∷◌, ◌++◌}
use cairn_wallet.Base.Text.{codes, text_eq, lower}
use cairn_wallet.Vault.Pending.{
  Entry, Flight, Queue, Visit, registered, not_mined, add_pending, start, visit, is_settled, merged,
  finish, flush_pending,
}
use cairn_wallet.Vault.Pending.Steps.{
  is_in, Work, add_read, add_written, started, settled, postponed, merge_read, merge_written, Run,
  here, next,
}
use cairn_wallet.Vault.Pending.Flushed.{unsettled, flush_pending-unsettled}
use cairn_wallet.Base.{if◌then◌else◌, Option}
use cairn_wallet.Base.Eq.{text_key, has, add}

abbrev queued : Queue
queued = record {
  stored =
      record { content = codes "a"; txid = codes "0xA1"; ts = 1000 }
      ∷ record { content = codes "b"; txid = codes "0xb2"; ts = 1000 }
      ∷ [];
  flight = none;
}

-- The first proposal is mined and registered; the second is not mined yet.
abbrev answer : Entry → Visit
answer x = if text_eq x.txid (codes "0xA1") then registered true else not_mined

flush_pending-unsettled_example :
    ((flush_pending 5000 answer queued).stored ≡ unsettled 5000 answer queued.stored)
    × ((flush_pending 5000 answer queued).flight ≡ none)
flush_pending-unsettled_example = flush_pending-unsettled 5000 answer queued refl

one_kept :
    (flush_pending 5000 answer queued).stored
    ≡ record { content = codes "b"; txid = codes "0xb2"; ts = 1000 } ∷ []
unfolding flush_pending is_settled merged text_eq lower has add
one_kept = refl

abbrev late : Entry
late = record { content = codes "c"; txid = codes "0xc3"; ts = 4000 }

-- An addition reads the list, a flush starts, the addition writes, and the flush runs to its end.
abbrev joined : Queue
joined = add_pending late queued.stored (start queued)

abbrev visited_one : Queue
visited_one = visit 5000 (registered true) joined

abbrev visited_both : Queue
visited_both = visit 5000 not_mined visited_one

abbrev first_flight : Flight
first_flight = record { left = queued.stored; kept = []; processed = [] }

abbrev second_flight : Flight
second_flight = record {
  left = record { content = codes "b"; txid = codes "0xb2"; ts = 1000 } ∷ [];
  kept = [];
  processed = add (codes "0xa1") [];
}

abbrev last_flight : Flight
last_flight = record {
  left = [];
  kept = record { content = codes "b"; txid = codes "0xb2"; ts = 1000 } ∷ [];
  processed = add (codes "0xb2") (add (codes "0xa1") []);
}

abbrev at_work : Queue → List (Entry × List Entry) → Option (List Entry) → Work
at_work q adding merging = record { queue = q; adding = adding; merging = merging }

abbrev idle : Work
idle = at_work queued [] none

abbrev flushed : Work
flushed = at_work (finish last_flight visited_both.stored visited_both) [] none

interleaved :
    Run idle ((((((([] ++ []) ++ []) ++ []) ++ codes "0xa1" ∷ []) ++ []) ++ []) ++ []) flushed
unfolding start visit add_pending is_settled lower text_eq
interleaved =
    next _ _ (at_work visited_both [] (some visited_both.stored)) _
      (next _ _ (at_work visited_both [] none) _
        (next _ _ (at_work visited_one [] none) _
          (next _ _ (at_work joined [] none) _
            (next _ _ (at_work (start queued) ((late, queued.stored) ∷ []) none) _
              (next _ _ (at_work queued ((late, queued.stored) ∷ []) none) _
                (next _ _ idle _ here (add_read late idle)) (started _))
              (add_written late queued.stored [] [] _ refl))
            (settled 5000 (registered true) _ _ first_flight _ refl refl refl))
          (postponed 5000 not_mined _ _ second_flight _ refl refl refl))
        (merge_read last_flight _ refl refl))
      (merge_written last_flight visited_both.stored _ refl refl)

-- An addition that writes over another one loses it.
abbrev other : Entry
other = record { content = codes "d"; txid = codes "0xd4"; ts = 4000 }

other_lost :
    is_in
      (codes "0xd4")
      (add_pending late queued.stored (add_pending other queued.stored queued)).stored
    ≡ false
unfolding is_in add_pending text_eq lower
other_lost = refl
