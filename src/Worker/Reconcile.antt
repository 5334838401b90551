-- ===== src/Worker/Reconcile.antt =====
-- billing_worker/handlers/reconcile.py: recovery at start.
pub mod Again
pub mod Held
pub mod Live
pub mod Orphans
pub mod Stuck
use voip_platform.Base.{
  ℕ, ◌≡◌, Bool, true, false, not, ◌&&◌, ◌||◌, Option, none, some, List, [], ◌∷◌, map, ◌==◌, nat_eq,
  length, if◌then◌else◌,
}
use voip_platform.Base.Dict.{Dict, get, keys}
use voip_platform.Base.Text.{Text, text_eq, codes, splitlines, strip, first_word, count_char}
use voip_platform.Core.{
  Env, session_keys, show_calls, active_keys, active_hgetall, stuck_select, stuck_update,
}
use voip_platform.Core.Monad.{
  World, Result, ok, err, M, pure, from_redis, from_db, modify_db, at, ◌>>=◌, ◌>>◌,
}
use voip_platform.Models.{Db, Consultant}
use voip_platform.Models.Query.{rows_where, update_where}
use voip_platform.Redis.{Redis, Session}
use voip_platform.Worker.Answer.{Event, id_field}
use voip_platform.Worker.Hangup.{handle_hangup, attempt}

-- `x in xs`
unfoldable pub contains : {A : Type 0} → (A → A → Bool) → A → List A → Bool
contains beq x [] = false
contains beq x (y ∷ ys) = beq y x || contains beq x ys

-- A line of `show calls` that begins with a UUID gives that UUID.
abbrev is_uuid : Text → Bool
is_uuid word = length word == 36 && count_char b'-' word == 4

unfoldable pub live_of_lines : List Text → List Text
live_of_lines [] = []
live_of_lines (line ∷ lines) =
    let rest = live_of_lines lines in
    let word = first_word (strip line) in if is_uuid word then word ∷ rest else rest

unfoldable pub live_uuids_of : Text → List Text
unfolding live_of_lines count_char first_word strip
live_uuids_of output = live_of_lines (splitlines output)

-- A failing `show calls` counts as no live call.
abbrev pub live_or_none : Bool → Text → List Text
live_or_none true output = []
live_or_none false output = live_uuids_of output

unfoldable pub orphans : List Text → List Text → List Text
unfolding contains
orphans live [] = []
orphans live (call_uuid ∷ rest) =
    let more = orphans live rest in
    if contains (λ a b. a == b) call_uuid live then more else call_uuid ∷ more

abbrev pub synthetic_event : Text → Event
synthetic_event call_uuid =
    (codes "Unique-ID", call_uuid)
    ∷ (codes "Hangup-Cause", codes "WORKER_RESTART")
    ∷ (codes "variable_billsec", codes "0")
    ∷ (codes "variable_duration", codes "0")
    ∷ (codes "Caller-Channel-Answered-Time", codes "0")
    ∷ (codes "Caller-Channel-Hangup-Time", codes "0")
    ∷ []

unfoldable pub add_active : Option Session → List ℕ → List ℕ
add_active none ids = ids
add_active (some s) ids = elim (id_field s.consultant_id) [ none ↦ ids | some id ↦ id ∷ ids ]

-- The busy consultants whom no call holds.
unfoldable pub idle_ids : List ℕ → List Consultant → List ℕ
unfolding contains
idle_ids active [] = []
idle_ids active (c ∷ rest) =
    let more = idle_ids active rest in
    if c.ivr_status == 2 && not (contains (λ a b. a == b) c.id active) then c.id ∷ more else more

unfoldable pub set_online : List ℕ → List Consultant → List Consultant
set_online [] rows = rows
set_online (id ∷ ids) rows =
    set_online ids (update_where (λ c. c.id == id) (λ c. record c { ivr_status = 1 }) rows)

module _ {F : Type 0} (env : Env F) where
  unfoldable pub finalize_orphans : List Text → M (Unit {0})
  finalize_orphans [] = pure tt
  finalize_orphans (call_uuid ∷ rest) =
      attempt (handle_hangup env (synthetic_event call_uuid)) >> finalize_orphans rest

  unfoldable pub active_ids : List Text → M (List ℕ)
  unfolding add_active
  active_ids [] = pure []
  active_ids (call_uuid ∷ rest) = do
    session ← at env active_hgetall (from_redis (λ r. get call_uuid r.calls))
    ids ← active_ids rest
    pure (add_active session ids)

  -- The updates are committed together, if there is one.
  unfoldable pub reset_idle : List ℕ → M (Unit {0})
  reset_idle [] = pure tt
  reset_idle (id ∷ ids) =
      at env stuck_update
        (modify_db λ db. record db { consultants = set_online (id ∷ ids) db.consultants })

  unfoldable pub reset_stuck_consultants : M (Unit {0})
  unfolding reset_idle
  reset_stuck_consultants = do
    uuids ← at env active_keys (from_redis (λ r. keys r.calls))
    active ← active_ids uuids
    idle ← at env stuck_select (from_db (λ db. idle_ids active db.consultants))
    reset_idle idle

  -- With no session there is nothing to ask FreeSWITCH, and nothing to finalize.
  unfoldable pub reconcile_sessions : Text → List Text → M (Unit {0})
  reconcile_sessions output [] = reset_stuck_consultants
  reconcile_sessions output (call_uuid ∷ rest) =
      finalize_orphans (orphans (live_or_none (env.fails show_calls) output) (call_uuid ∷ rest))
      >> reset_stuck_consultants

  -- `output` is what `esl.execute_api("show calls")` returns, if it does.
  unfoldable pub reconcile_on_startup : Text → M (Unit {0})
  unfolding reconcile_sessions
  reconcile_on_startup output = do
    uuids ← at env session_keys (from_redis (λ r. keys r.calls))
    reconcile_sessions output uuids
