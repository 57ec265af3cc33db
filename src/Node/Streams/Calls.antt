-- ===== src/Node/Streams/Calls.antt =====
-- That the listener calls back.
use rusty_kaspa_stratum.Shared.{
  ℕ, zero, suc, ◌+◌, ◌≤◌, ◌≡◌, refl, true, List, [], ◌∷◌, ◌++◌, arith, le→leb, replicate,
}
use rusty_kaspa_stratum.Node.Streams.{
  Notification, new_block_template, other_notification, TemplateListener, syncing, serving, Seen,
  Source, notified, ticked, select_turn, on_source, on_tick, on_notification, in_phase,
  block_until_synced_or_shutdown, no_shutdown, begin_inner,
}

-- What a turn sees of a node that is ready, without a shutdown.
abbrev pub good : Seen
good = no_shutdown true

-- So many turns that take a notification.
unfoldable pub take_notifications : ℕ → ℕ → ℕ → TemplateListener → TemplateListener
take_notifications period now zero l = l
take_notifications period now (suc n) l =
    take_notifications period now n (select_turn period now good notified l)

notified_other :
    (period now : ℕ) (l : TemplateListener) (rest : List Notification)
    → l.phase ≡ serving
    → l.rx ≡ other_notification ∷ rest
    → select_turn period now good notified l ≡ record l { rx = rest }
unfolding select_turn on_source on_notification
notified_other period now l rest h e = rw (h, e, in_phase) refl

notified_template :
    (period now : ℕ) (l : TemplateListener) (rest : List Notification)
    → l.phase ≡ serving
    → l.rx ≡ new_block_template ∷ rest
    → select_turn period now good notified l
      ≡ record l { rx = []; calls = l.calls + 1; next_tick = now }
unfolding select_turn on_source on_notification
notified_template period now l rest h e = rw (h, e, in_phase) refl

-- A burst of notifications is one call: those before the template are passed over, and those after it
-- are drained, however many there are of either.
pub take_notifications_burst :
    (period now others : ℕ) (l : TemplateListener) (rest : List Notification)
    → l.phase ≡ serving
    → l.rx ≡ replicate others other_notification ++ new_block_template ∷ rest
    → take_notifications period now (suc others) l
      ≡ record l { rx = []; calls = l.calls + 1; next_tick = now }
unfolding take_notifications
take_notifications_burst period now zero l rest h e = notified_template period now l rest h e
take_notifications_burst period now (suc others) l rest h e =
    let rx' = replicate others other_notification ++ new_block_template ∷ rest in
    rw (notified_other period now l rx' h e)
      (take_notifications_burst period now others (record l { rx = rx' }) rest h refl)

ticked_due :
    (period now : ℕ) (l : TemplateListener)
    → l.phase ≡ serving
    → l.next_tick ≤ now
    → (select_turn period now good ticked l).calls ≡ l.calls + 1
unfolding select_turn on_source on_tick
ticked_due period now l h due = rw (h, le→leb l.next_tick now due, in_phase) refl

syncing_serves :
    (period now : ℕ) (source : Source) (l : TemplateListener)
    → l.phase ≡ syncing
    → select_turn period now good source l ≡ begin_inner now l
unfolding select_turn block_until_synced_or_shutdown
syncing_serves period now source l h = rw (h, in_phase) refl

-- A listener that waits for the node calls back as soon as it finds the node ready.
pub select_turn-syncing :
    (period now later : ℕ) (source : Source) (l : TemplateListener)
    → l.phase ≡ syncing
    → now ≤ later
    → (select_turn period later good ticked (select_turn period now good source l)).calls
      ≡ l.calls + 1
select_turn-syncing period now later source l h le =
    rw (syncing_serves period now source l h) (ticked_due period later (begin_inner now l) refl le)

-- The ticker that is made anew after a notification is due at once: one template is two calls.
select_turn-notified :
    (period now : ℕ) (l : TemplateListener) (rest : List Notification)
    → l.phase ≡ serving
    → l.rx ≡ new_block_template ∷ rest
    → (select_turn period now good ticked (select_turn period now good notified l)).calls
      ≡ l.calls + 2
select_turn-notified period now l rest h e =
    let l' = record l { rx = []; calls = l.calls + 1; next_tick = now } in
    rw (notified_template period now l rest h e)
      (omega (arith, ticked_due period now l' h (omega arith)))
