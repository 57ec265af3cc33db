-- ===== src/Node/Streams/Runs.antt =====
-- Runs of the listener: turns, and notifications that arrive between them.
use rusty_kaspa_stratum.Shared.{
  ℕ, ◌+◌, ◌≡◌, refl, leb, Bool, true, false, not, ◌||◌, List, [], ◌∷◌, ◌++◌, arith, ◌⊎◌, inl, inr,
  ◌∙◌,
}
use rusty_kaspa_stratum.Node.Streams.{
  Notification, new_block_template, TemplateListener, other_notification, Phase, syncing, serving,
  ended, Seen, Source, changed, notified, closed, ticked, select_turn, on_source, on_tick,
  on_notification, in_phase, block_until_synced_or_shutdown,
}

pub data Step (period : ℕ) (P : Seen → Type 0) : TemplateListener → TemplateListener → Type 0 where
  arrives :
      (l : TemplateListener) (n : Notification) → Step period P l (record l { rx = l.rx ++ n ∷ [] })
  turns :
      (l : TemplateListener) (now : ℕ) (seen : Seen) (source : Source)
      → P seen
      → Step period P l (select_turn period now seen source l)

-- Runs in which every turn sees something of this kind.
pub data Reach (period : ℕ) (P : Seen → Type 0) (l : TemplateListener)
    : TemplateListener → Type 0 where
  here : Reach period P l l
  next : {m n : TemplateListener} → Reach period P l m → Step period P m n → Reach period P l n

abbrev Called : Seen → TemplateListener → TemplateListener → Type 0
Called seen l l' =
    (l'.calls ≡ l.calls)
    ⊎ ((l'.calls ≡ l.calls + 1)
        × (l.phase ≡ serving)
        × (seen.synced ≡ true)
        × (seen.shutdown_before ≡ false)
        × (seen.shutdown_after ≡ false))

abbrev pub seeing : Bool → Bool → Bool → Seen
seeing before after synced = record {
  shutdown_before = before;
  shutdown_after = after;
  synced = synced;
}

notification_calls :
    (now : ℕ) (after synced : Bool) (rx : List Notification) (l : TemplateListener)
    → l.phase ≡ serving
    → Called (seeing false after synced) l (on_notification now (seeing false after synced) rx l)
unfolding on_notification
notification_calls now after synced [] l h = inl refl
notification_calls now after synced (other_notification ∷ rest) l h = inl refl
notification_calls now true synced (new_block_template ∷ rest) l h = inl refl
notification_calls now false true (new_block_template ∷ rest) l h = inr (refl, h, refl, refl, refl)
notification_calls now false false (new_block_template ∷ rest) l h = inl refl

tick_calls :
    (period now : ℕ) (after synced due : Bool) (l : TemplateListener)
    → l.phase ≡ serving
    → leb l.next_tick now ≡ due
    → Called (seeing false after synced) l (on_tick period now (seeing false after synced) l)
unfolding on_tick
tick_calls period now after synced false l h due = inl (rw due refl)
tick_calls period now true synced true l h due = inl (rw due refl)
tick_calls period now false true true l h due = inr (rw due refl, h, refl, refl, refl)
tick_calls period now false false true l h due = inl (rw due refl)

source_calls :
    (period now : ℕ) (after synced : Bool) (source : Source) (l : TemplateListener)
    → l.phase ≡ serving
    → Called
        (seeing false after synced)
        l
        (on_source period now (seeing false after synced) source l)
unfolding on_source
source_calls period now true synced changed l h = inl refl
source_calls period now false synced changed l h = inl refl
source_calls period now after synced notified l h = notification_calls now after synced l.rx l h
source_calls period now after synced closed l h = inl refl
source_calls period now after synced ticked l h =
    tick_calls period now after synced (leb l.next_tick now) l h refl

phase_calls :
    (phase : Phase) (period now : ℕ) (before after synced : Bool) (source : Source)
    (l : TemplateListener)
    → l.phase ≡ phase
    → Called
        (seeing before after synced)
        l
        (in_phase phase period now (seeing before after synced) source l)
unfolding block_until_synced_or_shutdown
phase_calls ended period now before after synced source l h = inl refl
phase_calls serving period now true after synced source l h = inl refl
phase_calls serving period now false after synced source l h =
    source_calls period now after synced source l h
phase_calls syncing period now true after synced source l h = inl refl
phase_calls syncing period now false after true source l h = inl refl
phase_calls syncing period now false true false source l h = inl refl
phase_calls syncing period now false false false source l h = inl refl

-- A turn calls back at most once, and only in the inner loop, with a node that is ready and no
-- shutdown.
select_turn-calls :
    (period now : ℕ) (seen : Seen) (source : Source) (l : TemplateListener)
    → Called seen l (select_turn period now seen source l)
unfolding select_turn
select_turn-calls period now seen source l =
    phase_calls l.phase period now seen.shutdown_before seen.shutdown_after seen.synced source l
      refl

-- The node is not ready, or a shutdown is requested.
unfoldable pub is_held_back : Seen → Bool
is_held_back seen = not seen.synced || seen.shutdown_before || seen.shutdown_after

abbrev HeldBack : Seen → Type 0
HeldBack seen = is_held_back seen ≡ true

not_held_back :
    (seen : Seen)
    → seen.synced ≡ true
    → seen.shutdown_before ≡ false
    → seen.shutdown_after ≡ false
    → is_held_back seen ≡ false
unfolding is_held_back
not_held_back seen r b a = ground (arith, r, b, a)

Step-calls : (period : ℕ) {l m : TemplateListener} → Step period HeldBack l m → m.calls ≡ l.calls
Step-calls period (arrives l n) = refl
Step-calls period (turns l now seen source held) =
    elim (select_turn-calls period now seen source l) [
      | inl same ↦ same
      | inr (more, inner, ready, before, after) ↦ absurd (ground (arith, held, not_held_back seen))
    ]

-- While the node is not ready, or a shutdown is requested, nothing is called back, whatever
-- notifications arrive and whatever the ticker does.
pub Reach-calls :
    (period : ℕ) {l m : TemplateListener} → Reach period HeldBack l m → m.calls ≡ l.calls
Reach-calls period here = refl
Reach-calls period (next r st) = Step-calls period st ∙ Reach-calls period r

abbrev Anything : Seen → Type 0
Anything seen = Unit

ended-Step :
    (period : ℕ) {l m : TemplateListener}
    → Step period Anything l m
    → l.phase ≡ ended
    → (m.phase ≡ ended) × (m.calls ≡ l.calls)
unfolding select_turn
ended-Step period (arrives l n) h = (h, refl)
ended-Step period (turns l now seen source any) h =
    (rw (h, select_turn) refl, rw (h, select_turn) refl)

ended_forever :
    (period : ℕ) {l m : TemplateListener}
    → l.phase ≡ ended
    → Reach period Anything l m
    → (m.phase ≡ ended) × (m.calls ≡ l.calls)
ended_forever period h here = (h, refl)
ended_forever period h (next r st) =
    let (e, same) = ended_forever period h r in
    let (e', same') = ended-Step period st e in (e', same' ∙ same)

shutdown_ends :
    (phase : Phase) (period now : ℕ) (after synced : Bool) (source : Source) (l : TemplateListener)
    → l.phase ≡ phase
    → ((in_phase phase period now (seeing true after synced) source l).phase ≡ ended)
      × ((in_phase phase period now (seeing true after synced) source l).calls ≡ l.calls)
unfolding block_until_synced_or_shutdown
shutdown_ends syncing period now after synced source l h = (refl, refl)
shutdown_ends serving period now after synced source l h = (refl, refl)
shutdown_ends ended period now after synced source l h = (h, refl)

-- After a turn that sees the flag of shutdown nothing is called back any more, even if the node is
-- ready again.
pub select_turn-Reach-calls :
    (period now : ℕ) (after synced : Bool) (source : Source) (l m : TemplateListener)
    → Reach period Anything (select_turn period now (seeing true after synced) source l) m
    → (m.phase ≡ ended) × (m.calls ≡ l.calls)
unfolding select_turn
select_turn-Reach-calls period now after synced source l m r =
    let (e, same) = shutdown_ends l.phase period now after synced source l refl in
    let (e', same') = ended_forever period e r in (e', same' ∙ same)
