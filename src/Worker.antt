-- ===== src/Worker.antt =====
-- billing_worker: the ESL client, the handlers of its events, and the loop over them.
pub mod Cdr
pub mod Answer
pub mod Hangup
pub mod Reconcile
pub mod Esl
pub mod Loop
pub mod Cycle
pub mod Writes
