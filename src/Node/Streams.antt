-- ===== src/Node/Streams.antt =====
-- bridge/src/kaspa/kaspaapi/api/streams.rs: the loop that calls `block_cb` when the node has a new
-- block template, or when the ticker fires. A turn of the loop is a function of what it sees: the
-- flag of shutdown, the answer of `is_node_synced_for_mining`, and what `select!` takes. Notifications
-- arrive between turns. `interval` ticks at once for the first time, and then each period; a tick that
-- was missed is skipped (tokio).
pub mod Runs
pub mod Calls
use rusty_kaspa_stratum.Shared.{
  ℕ, ◌+◌, ◌-◌, ◌%◌, Bool, true, false, not, none, List, [], ◌∷◌, ◌++◌, if◌then◌else◌, leb,
}
use rusty_kaspa_stratum.External.{External}
use rusty_kaspa_stratum.Node.Sync.{
  Poll, Waited, ready_stable, shutdown_requested, waiting, wait_until_mining_ready_stable,
}

pub data Notification : Type 0 where
  new_block_template other_notification : Notification

-- Where the task is: before the inner loop, in it, or at its end.
pub data Phase : Type 0 where
  syncing serving ended : Phase

-- The branch of `select!`; `closed` is the end of the channel.
pub data Source : Type 0 where
  changed notified closed ticked : Source

pub record TemplateListener : Type 0 where
  pub phase : Phase
  pub rx : List Notification
  pub next_tick : ℕ
  pub log_sync_resume : Bool
  pub calls : ℕ

-- The flag before the branch (or during a call to the node), after it (or in the pause), and whether
-- the node is ready.
pub record Seen : Type 0 where
  pub shutdown_before : Bool
  pub shutdown_after : Bool
  pub synced : Bool

abbrev pub break_outer : TemplateListener → TemplateListener
break_outer l = record l { phase = ended }

-- The inner loop begins, with a ticker of its own.
abbrev pub begin_inner : ℕ → TemplateListener → TemplateListener
begin_inner now l = record l { phase = serving; log_sync_resume = false; next_tick = now }

-- What both branches that have a template end with.
unfoldable pub call_back : Bool → TemplateListener → TemplateListener
call_back synced l =
    if not synced
    then record l { phase = syncing; log_sync_resume = true }
    else record l { calls = l.calls + 1 }

abbrev pub drained : List Notification → TemplateListener → TemplateListener
drained rest l = record l { rx = rest }

-- The ticker is made anew after a call.
abbrev pub reset_ticker : Bool → ℕ → TemplateListener → TemplateListener
reset_ticker synced now l = if synced then record l { next_tick = now } else l

-- A ticker that is due, with the next tick at the next multiple of the period.
abbrev pub tick : ℕ → ℕ → TemplateListener → TemplateListener
tick period now l = record l { next_tick = now + period - (now - l.next_tick) % period }

-- `block_until_synced_or_shutdown`, a turn of its loop
unfoldable pub block_until_synced_or_shutdown : ℕ → Seen → TemplateListener → TemplateListener
block_until_synced_or_shutdown now seen l =
    if seen.shutdown_before
    then break_outer l
    else if seen.synced
    then begin_inner now l
    else if seen.shutdown_after
    then break_outer l
    else l

unfoldable pub on_notification : ℕ → Seen → List Notification → TemplateListener → TemplateListener
unfolding call_back
on_notification now seen [] l = l
on_notification now seen (other_notification ∷ rest) l = drained rest l
on_notification now seen (new_block_template ∷ rest) l =
    if seen.shutdown_after
    then break_outer (drained [] l)
    else reset_ticker seen.synced now (call_back seen.synced (drained [] l))

unfoldable pub on_tick : ℕ → ℕ → Seen → TemplateListener → TemplateListener
unfolding call_back
on_tick period now seen l =
    if leb l.next_tick now
    then if seen.shutdown_after
      then break_outer (tick period now l)
      else call_back seen.synced (tick period now l)
    else l

unfoldable pub on_source : ℕ → ℕ → Seen → Source → TemplateListener → TemplateListener
unfolding on_notification on_tick
on_source period now seen changed l = if seen.shutdown_after then break_outer l else l
on_source period now seen notified l = on_notification now seen l.rx l
on_source period now seen closed l = break_outer l
on_source period now seen ticked l = on_tick period now seen l

abbrev pub in_phase : Phase → ℕ → ℕ → Seen → Source → TemplateListener → TemplateListener
in_phase syncing period now seen source l = block_until_synced_or_shutdown now seen l
in_phase serving period now seen source l =
    if seen.shutdown_before then break_outer l else on_source period now seen source l
in_phase ended period now seen source l = l

-- `start_block_template_listener_with_shutdown`, a turn of the loop that the task is in
unfoldable pub select_turn : ℕ → ℕ → Seen → Source → TemplateListener → TemplateListener
unfolding block_until_synced_or_shutdown on_source
select_turn period now seen source l = in_phase l.phase period now seen source l

-- `start_block_template_listener`, which knows of no shutdown and waits for a node that stays ready
abbrev pub no_shutdown : Bool → Seen
no_shutdown synced = record { shutdown_before = false; shutdown_after = false; synced = synced }

abbrev pub after_wait : Waited → ℕ → TemplateListener → TemplateListener
after_wait ready_stable now l = begin_inner now l
after_wait shutdown_requested now l = l
after_wait waiting now l = l

abbrev pub in_phase_plain :
    {x : External}
    → Phase
    → ℕ
    → ℕ
    → List (Poll x)
    → Bool
    → Source
    → TemplateListener
    → TemplateListener
in_phase_plain syncing period now polls synced source l =
    after_wait (wait_until_mining_ready_stable false none polls) now l
in_phase_plain serving period now polls synced changed l = l
in_phase_plain serving period now polls synced source l =
    on_source period now (no_shutdown synced) source l
in_phase_plain ended period now polls synced source l = l

unfoldable pub plain_turn :
    {x : External} → ℕ → ℕ → List (Poll x) → Bool → Source → TemplateListener → TemplateListener
unfolding on_source
plain_turn period now polls synced source l =
    in_phase_plain l.phase period now polls synced source l
