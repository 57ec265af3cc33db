-- ===== src/Examples/Guards.antt =====
-- The two guards of bridge/src/share_handler/duplicate_submit.rs and
-- bridge/src/kaspa/kaspaapi/api/block_submit_guard.rs on a few calls.
use rusty_kaspa_stratum.Shared.{
  HashMap, ℕ, none, get as lookup, get-empty, text_key, ◌+◌, ◌-◌, ◌≤◌, ◌≡◌, refl, true, false, some,
  List, [], ◌∷◌, Text, codes, arith, length,
}
use rusty_kaspa_stratum.Shared
use rusty_kaspa_stratum.Dedupe.Pruning
use rusty_kaspa_stratum.Dedupe.Submits.{
  DuplicateSubmitGuard, DuplicateSubmitEntry, in_flight, accepted, low_diff, get, insert_inflight,
  set_outcome,
}
use rusty_kaspa_stratum.Dedupe.Submits
use rusty_kaspa_stratum.Dedupe.Submits.Invariant.{
  IsValid, gets, inserts, sets, new-IsValid, run-IsValid, insert_inflight-IsValid,
}
use rusty_kaspa_stratum.Dedupe.Submits.Invariant
use rusty_kaspa_stratum.Dedupe.Submits.Expired.{
  InOrder, insert_inflight-InOrder, get_unexpired, get_behind_young,
}
use rusty_kaspa_stratum.Dedupe.Blocks.{BlockSubmitGuard, try_mark, remove}
use rusty_kaspa_stratum.Dedupe.Blocks
use rusty_kaspa_stratum.Dedupe.Blocks.Once.{try_mark-try_mark}
use rusty_kaspa_stratum.Dedupe.Blocks.Leftover.{two_more}
use rusty_kaspa_stratum.Dedupe.Blocks.Leftover.Forgotten.{try_mark_forgotten_again}

abbrev key : Text
key = b'w' ∷ b'|' ∷ b'1' ∷ []

abbrev other_key : Text
other_key = b'w' ∷ b'|' ∷ b'2' ∷ []

abbrev fresh : DuplicateSubmitGuard
fresh = Submits.new 100 2

-- One submission was registered at the time 5.
abbrev guard : DuplicateSubmitGuard
guard = insert_inflight fresh key 5

guard-IsValid : IsValid guard
guard-IsValid = insert_inflight-IsValid fresh key 5 (new-IsValid 100 2)

abbrev full : DuplicateSubmitGuard
full = insert_inflight guard other_key 40

-- The first submission was answered at the time 90.
abbrev refreshed : DuplicateSubmitGuard
refreshed = set_outcome full key 90 accepted

-- What the guard answers on these calls; the definitions are unfolded here, once.
answers :
    ((get guard key 6).1 ≡ some in_flight)
    × ((get fresh key 5).1 ≡ none)
    × (lookup key full.entries ≡ some (record { ts = 5; outcome = in_flight }))
unfolding get insert_inflight Submits.new Submits.prune Pruning.prune Pruning.expire Pruning.evict
    Shared.get Shared.insert Shared.remove
answers = (refl, refl, refl)

run-IsValid_example :
    IsValid (Invariant.run fresh (inserts key 5 ∷ sets key 6 accepted ∷ gets other_key 300 ∷ []))
run-IsValid_example =
    run-IsValid fresh (inserts key 5 ∷ sets key 6 accepted ∷ gets other_key 300 ∷ [])
      (new-IsValid 100 2)

fresh-InOrder : InOrder fresh 5
unfolding Submits.new
fresh-InOrder = record {
  ordered = tt;
  past = λ k d h. absurd (ground (arith, get-empty {V = DuplicateSubmitEntry} k, h));
}

guard-InOrder : InOrder (insert_inflight fresh key 5) 5
guard-InOrder =
    insert_inflight-InOrder fresh key 5 5 (new-IsValid 100 2) (omega arith) fresh-InOrder

get_unexpired_example :
    (e : DuplicateSubmitEntry) × (lookup key guard.entries ≡ some e)
    × (e.outcome ≡ in_flight)
    × (6 - e.ts ≤ guard.ttl)
get_unexpired_example = get_unexpired guard key 5 6 in_flight guard-IsValid guard-InOrder answers.0

get_behind_young_example : (get refreshed other_key 150).1 ≡ some in_flight
unfolding insert_inflight set_outcome Submits.new Submits.prune Pruning.prune Pruning.expire
    Pruning.evict Shared.get Shared.insert Shared.remove
get_behind_young_example =
    get_behind_young refreshed key other_key (other_key ∷ [])
      (record { ts = 90; outcome = accepted }) (record { ts = 40; outcome = in_flight }) 150
      (omega arith) refl refl (omega arith) refl

abbrev no_blocks : BlockSubmitGuard
no_blocks = Blocks.new 100 1

try_mark-try_mark_example : (try_mark (try_mark no_blocks key 5).0 key 50).1 ≡ false
unfolding try_mark Blocks.new Blocks.prune Pruning.prune Pruning.expire Pruning.evict Shared.get
    Shared.insert Shared.remove
try_mark-try_mark_example = try_mark-try_mark no_blocks key 5 50 (omega arith) refl (omega arith)

abbrev marked_blocks : HashMap Text ℕ
marked_blocks = (other_key, 5) ∷ (key, 6) ∷ (b'x' ∷ [], 7) ∷ []

-- Of four blocks in a guard for three, the one that was marked at 9 is forgotten, and not the one that
-- was marked at 7.
try_mark_forgotten_again_example :
    ((try_mark
        (two_more 100 3 marked_blocks other_key key
          ((b'x' ∷ []) ∷ [])
          (b'y' ∷ [])
          (b'z' ∷ [])
          8
          9
          10
          11)
        key
        12).1
      ≡ true)
    × ((try_mark
          (two_more 100 3 marked_blocks other_key key
            ((b'x' ∷ []) ∷ [])
            (b'y' ∷ [])
            (b'z' ∷ [])
            8
            9
            10
            11)
          (b'x' ∷ [])
          12).1
        ≡ false)
unfolding try_mark remove Blocks.prune Pruning.prune Pruning.expire Pruning.evict Shared.get
    Shared.insert Shared.remove
try_mark_forgotten_again_example =
    try_mark_forgotten_again 100 3 marked_blocks other_key key ((b'x' ∷ []) ∷ []) (b'y' ∷ [])
      (b'z' ∷ []) 5 6 8 9 10 11 12 (b'x' ∷ []) 7 (λ h. ground (arith, h)) (λ h. ground (arith, h))
      refl refl refl (λ h. ground (arith, h)) refl refl (λ h. ground (arith, h)) (omega arith)
      (omega arith) (omega arith) (omega arith) (omega arith) (omega arith) refl refl
