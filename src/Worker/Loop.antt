-- ===== src/Worker/Loop.antt =====
-- billing_worker/worker.py: what the task of an event does, and the waits between connections.
pub mod Waits
use voip_platform.Base.{
  ℕ, zero, suc, ◌*◌, ◌≡◌, Bool, true, false, Option, none, some, List, [], ◌∷◌, ◌==◌, ltb,
  if◌then◌else◌,
}
use voip_platform.Base.Dict.{get}
use voip_platform.Base.Text.{Text, text_eq, codes}
use voip_platform.Core.{Env}
use voip_platform.Core.Monad.{World, M, pure, ◌>>=◌, ◌>>◌}
use voip_platform.Worker.Answer.{Event, handle_answer}
use voip_platform.Worker.Hangup.{handle_hangup, attempt}

abbrev pub is_named : Option Text → Text → Bool
is_named none name = false
is_named (some n) name = n == name

module _ {F : Type 0} (env : Env F) where
  -- An exception in a task ends that task alone.
  unfoldable pub dispatch : Event → M (Unit {0})
  dispatch event =
      let name = get (codes "Event-Name") event in
      if is_named name (codes "CHANNEL_HANGUP_COMPLETE")
      then attempt (handle_hangup env event)
      else if is_named name (codes "CHANNEL_ANSWER")
      then attempt (handle_answer env event)
      else pure tt

-- `min(backoff * 2, 60)`
unfoldable pub next_backoff : ℕ → ℕ
next_backoff backoff = if ltb 60 (backoff * 2) then 60 else backoff * 2

-- The wait after each connection, however it ended: `outcomes` says whether it had been made.
unfoldable pub backoffs : ℕ → List Bool → List ℕ
unfolding next_backoff
backoffs backoff [] = []
backoffs backoff (connected ∷ outcomes) = backoff ∷ backoffs (next_backoff backoff) outcomes
