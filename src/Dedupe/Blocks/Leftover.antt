-- ===== src/Dedupe/Blocks/Leftover.antt =====
-- What a removal leaves in the queue: the place that the key had before.
pub mod Forgotten
use rusty_kaspa_stratum.Shared.{
  ℕ, ◌+◌, ◌-◌, ◌≤◌, ◌≡◌, ◌≢◌, refl, sym, ap, ◌∙◌, List, [], ◌∷◌, ◌++◌, arith, length, HashMap,
  get as lookup, insert, Text, text_key, text_eq_iff, some, none, true, false, get-remove,
  get-insert, length-remove_lt, length-insert_le, Option-cases, inl, inr,
}
use rusty_kaspa_stratum.Shared
use rusty_kaspa_stratum.Dedupe.Pruning.{Table}
use rusty_kaspa_stratum.Dedupe.Pruning
use rusty_kaspa_stratum.Dedupe.Pruning.Keeps.{evict_noop, evict_one}
use rusty_kaspa_stratum.Dedupe.Blocks.{BlockSubmitGuard, prune, try_mark, remove}
use rusty_kaspa_stratum.Dedupe.Blocks.Once.{try_mark_known, try_mark_unknown}

module _ (ttl max : ℕ) where
  abbrev pub guard : HashMap Text ℕ → List Text → BlockSubmitGuard
  guard entries order = record {
    ttl = ttl;
    max_entries = max;
    table = record { entries = entries; order = order };
  }

  -- A young front and room: nothing is pruned.
  prune_young :
      (entries : HashMap Text ℕ) (front : Text) (order : List Text) (t now : ℕ)
      → lookup front entries ≡ some t
      → now - t ≤ ttl
      → length entries ≤ max
      → prune (guard entries (front ∷ order)) now ≡ guard entries (front ∷ order)
  unfolding prune Pruning.prune Pruning.expire
  prune_young entries front order t now h young room =
      ground (arith, h, young, evict_noop max (front ∷ order) entries room)

  remove_young :
      (entries : HashMap Text ℕ) (front : Text) (order : List Text) (t now : ℕ) (hash : Text)
      → lookup front entries ≡ some t
      → now - t ≤ ttl
      → length entries ≤ max
      → remove (guard entries (front ∷ order)) hash now
        ≡ guard (Shared.remove hash entries) (front ∷ order)
  unfolding remove
  remove_young entries front order t now hash h young room =
      rw (prune_young entries front order t now h young room) refl

  -- A block that the pruned guard does not know is marked.
  try_mark_new :
      (g : BlockSubmitGuard) (entries : HashMap Text ℕ) (order : List Text) (hash : Text) (now : ℕ)
      → prune g now ≡ guard entries order
      → lookup hash entries ≡ none
      → (try_mark g hash now).0 ≡ guard (insert hash now entries) (order ++ hash ∷ [])
  unfolding try_mark
  try_mark_new g entries order hash now pruned absent = rw (pruned, absent) refl

  -- A young front and one entry too many: the front goes.
  pub prune_full :
      (entries : HashMap Text ℕ) (front : Text) (order : List Text) (t now : ℕ)
      → lookup front entries ≡ some t
      → now - t ≤ ttl
      → length entries ≡ max + 1
      → prune (guard entries (front ∷ order)) now ≡ guard (Shared.remove front entries) order
  unfolding prune Pruning.prune Pruning.expire
  prune_full entries front order t now h young full =
      ground (arith, h, young, evict_one max front order entries t full h)

  -- A guard in which `hash` is behind `other`. The mark of `hash` is removed at `t2`, and the block is
  -- marked again at `t3`; two other blocks follow.
  module _ (entries : HashMap Text ℕ) (other hash : Text) (rest : List Text) (a b : Text)
      (t2 t3 t4 t5 : ℕ) where
    abbrev pub removed : BlockSubmitGuard
    removed = remove (guard entries (other ∷ hash ∷ rest)) hash t2

    abbrev pub marked_again : BlockSubmitGuard
    marked_again = (try_mark removed hash t3).0

    abbrev pub one_more : BlockSubmitGuard
    one_more = (try_mark marked_again a t4).0

    abbrev pub two_more : BlockSubmitGuard
    two_more = (try_mark one_more b t5).0

    abbrev entries_again : HashMap Text ℕ
    entries_again = insert hash t3 (Shared.remove hash entries)

    module _ (t0 t1 : ℕ) (known : lookup other entries ≡ some t0)
        (marked : lookup hash entries ≡ some t1) (apart : other ≢ hash)
        (new_a : lookup a entries ≡ none) (new_b : lookup b entries ≡ none) (apart_new : a ≢ b)
        (room : length entries ≤ max) (early : t2 ≤ t3) (later : t3 ≤ t4) (last : t4 ≤ t5)
        (young : t5 - t0 ≤ ttl) where
      other_removed : lookup other (Shared.remove hash entries) ≡ some t0
      other_removed =
          ground (arith, get-remove hash other entries, text_eq_iff hash other, known, apart)

      removed_is : removed ≡ guard (Shared.remove hash entries) (other ∷ hash ∷ rest)
      removed_is =
          remove_young entries other (hash ∷ rest) t0 t2 hash known
            (omega (arith, young, early, later, last)) room

      marked_again_is : marked_again ≡ guard entries_again (other ∷ hash ∷ (rest ++ hash ∷ []))
      marked_again_is =
          try_mark_new removed (Shared.remove hash entries) (other ∷ hash ∷ rest) hash t3
            (ap (λ g. prune g t3) removed_is
              ∙ prune_young (Shared.remove hash entries) other (hash ∷ rest) t0 t3 other_removed
                  (omega (arith, young, later, last))
                  (omega (arith, room, length-remove_lt hash t1 entries marked)))
            (ground (arith, get-remove hash hash entries, text_eq_iff hash hash))

      a_new : lookup a entries_again ≡ none
      a_new = ground (
        arith,
        get-insert hash a t3 (Shared.remove hash entries),
        get-remove hash a entries,
        text_eq_iff hash a,
        new_a,
        marked,
      )

      other_again : lookup other entries_again ≡ some t0
      other_again = ground (
        arith,
        get-insert hash other t3 (Shared.remove hash entries),
        text_eq_iff hash other,
        other_removed,
        apart,
      )

      one_more_is :
          one_more
          ≡ guard (insert a t4 entries_again) (other ∷ hash ∷ ((rest ++ hash ∷ []) ++ a ∷ []))
      one_more_is =
          try_mark_new marked_again entries_again (other ∷ hash ∷ (rest ++ hash ∷ [])) a t4
            (ap (λ g. prune g t4) marked_again_is
              ∙ prune_young entries_again other (hash ∷ (rest ++ hash ∷ [])) t0 t4 other_again
                  (omega (arith, young, last))
                  (omega (
                    arith,
                    room,
                    length-remove_lt hash t1 entries marked,
                    length-insert_le hash t3 (Shared.remove hash entries),
                  )))
            a_new

      module _ (full : length one_more.entries ≡ max + 1) where
        -- What is known after the last mark: the second mark of `hash`, and the older ones.
        pub left : HashMap Text ℕ
        left = Shared.remove other (insert a t4 entries_again)

        other_one_more : lookup other (insert a t4 entries_again) ≡ some t0
        other_one_more = ground (
          arith,
          get-insert a other t4 entries_again,
          text_eq_iff a other,
          other_again,
          new_a,
          known,
        )

        b_new : lookup b left ≡ none
        unfolding left
        b_new = ground (
          arith,
          get-remove other b (insert a t4 entries_again),
          get-insert a b t4 entries_again,
          get-insert hash b t3 (Shared.remove hash entries),
          get-remove hash b entries,
          text_eq_iff a b,
          text_eq_iff hash b,
          new_b,
          marked,
          apart_new,
        )

        pub two_more_is :
            two_more ≡ guard (insert b t5 left) (hash ∷ (((rest ++ hash ∷ []) ++ a ∷ []) ++ b ∷ []))
        unfolding left
        two_more_is =
            try_mark_new one_more left (hash ∷ ((rest ++ hash ∷ []) ++ a ∷ [])) b t5
              (ap (λ g. prune g t5) one_more_is
                ∙ prune_full (insert a t4 entries_again) other
                    (hash ∷ ((rest ++ hash ∷ []) ++ a ∷ [])) t0 t5 other_one_more young
                    (ap (λ g. length g.entries) (sym one_more_is) ∙ full))
              b_new

        pub hash_left : lookup hash (insert b t5 left) ≡ some t3
        unfolding left
        hash_left = ground (
          arith,
          get-insert b hash t5 left,
          get-remove other hash (insert a t4 entries_again),
          get-insert a hash t4 entries_again,
          get-insert hash hash t3 (Shared.remove hash entries),
          text_eq_iff b hash,
          text_eq_iff other hash,
          text_eq_iff a hash,
          text_eq_iff hash hash,
          new_a,
          new_b,
          marked,
          apart,
        )

        pub older_left :
            (k : Text) (t : ℕ)
            → k ≢ other
            → k ≢ hash
            → lookup k entries ≡ some t
            → lookup k (Shared.remove hash (insert b t5 left)) ≡ some t
        unfolding left
        older_left k t d e h = ground (
          arith,
          get-remove hash k (insert b t5 left),
          get-insert b k t5 left,
          get-remove other k (insert a t4 entries_again),
          get-insert a k t4 entries_again,
          get-insert hash k t3 (Shared.remove hash entries),
          get-remove hash k entries,
          text_eq_iff hash k,
          text_eq_iff b k,
          text_eq_iff other k,
          text_eq_iff a k,
          new_a,
          new_b,
          h,
          d,
          e,
        )
