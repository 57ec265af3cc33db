-- ===== src/Node/Templates/Fetch.antt =====
-- A client whose template is asked of the node: `fetch_template` of job dispatch over
-- `get_block_template`.
use rusty_kaspa_stratum.Shared.{
  ℕ, ◌≡◌, refl, Bool, true, false, Option, [], ◌∷◌, ◌++◌, Text, Result, err, contains_text,
}
use rusty_kaspa_stratum.External.{External}
use rusty_kaspa_stratum.Jobs.{Dispatcher, fetch_template, returned}
use rusty_kaspa_stratum.Node.Templates.{Call, get_block_template, attempts}
use rusty_kaspa_stratum.Stratum.Context.{disconnect}
use rusty_kaspa_stratum.Submit.Session.{
  Session, record_metric, error_invalid_address_fmt, error_failed_block_fetch,
}

module _ {x : External} (decode : Text → Result Text (Unit {0})) (call : ℕ → Call x)
    (debug : Option Text → Text) (d : Dispatcher x) where
  -- The dispatcher that asks this node.
  unfoldable pub with_node : Bool → Dispatcher x
  unfolding get_block_template
  with_node synced = record d {
    get_block_template = λ wallet_addr remote_app canxium_addr.
        (get_block_template decode call debug wallet_addr synced).0;
  }

  -- A client whose wallet is no address is disconnected and counted as such, if the node is ready.
  fetch_template_undecodable :
      (s : Session x) (e : Text)
      → decode s.ctx.wallet_addr ≡ err e
      → fetch_template (with_node true) s ≡ (
        err returned,
        record s { metrics = s.metrics ++ error_invalid_address_fmt ∷ []; ctx = disconnect s.ctx },
      )
  unfolding fetch_template with_node attempts contains_text record_metric
  fetch_template_undecodable s e bad = rw (bad, attempts) refl

  -- A node that is not ready is no reason to disconnect a client, whatever its wallet.
  pub fetch_template_not_ready :
      (s : Session x)
      → fetch_template (with_node false) s
        ≡ (err returned, record s { metrics = s.metrics ++ error_failed_block_fetch ∷ [] })
  unfolding fetch_template with_node contains_text record_metric
  fetch_template_not_ready s = refl
