-- ===== src/Submit.antt =====
-- bridge/src/share_handler/submit: the pipeline of `mining.submit`. A submission is one run of
-- `Handle.handle_submit` on a session: the share handler and the connection, with what the run
-- records. The awaits of other tasks are not modelled: a run is not interrupted.
pub mod PowMath
pub mod Session
pub mod Parse
pub mod Duplicate
pub mod BlockSubmit
pub mod PowLoop
pub mod Finish
pub mod Handle
