-- ===== src/Worker/Answer.antt =====
-- billing_worker/handlers/call_answer.py: CHANNEL_ANSWER.
pub mod Effect
use voip_platform.Base.{ℕ, not, Option, none, some, if◌then◌else◌}
use voip_platform.Base.Dict.{Dict, get}
use voip_platform.Base.Text.{Text, text_eq, codes, is_nonempty}
use voip_platform.Core.{
  Env, session_hgetall, answer_hset, connected_update, connected_tracing, busy_update, answer_time,
}
use voip_platform.Core.Monad.{M, pure, from_redis, modify_redis, at, ◌>>=◌, ◌>>◌}
use voip_platform.Models.{TracingStatus}
use voip_platform.Redis.{Session, update_call}
use voip_platform.Worker.Cdr.{set_connected_time, append_tracing, update_consultant_status}

-- The headers of an ESL event.
abbrev pub Event : Type 0
Event = Dict Text Text

-- `session.get(field, "")` of an id: none for a missing field and for "".
abbrev pub id_field : Option (Option ℕ) → Option ℕ
id_field none = none
id_field (some id) = id

module _ {F : Type 0} (env : Env F) where
  unfoldable pub mark_busy : Option ℕ → M (Unit {0})
  mark_busy none = pure tt
  mark_busy (some consultant_id) = update_consultant_status env busy_update consultant_id 2

  unfoldable pub record_answer : Option ℕ → Option ℕ → M (Unit {0})
  unfolding mark_busy
  record_answer none consultant_id = pure tt
  record_answer (some statistics_id) consultant_id = do
    set_connected_time env connected_update statistics_id (env.clock answer_time)
    append_tracing env connected_tracing statistics_id TracingStatus.connected_time
        (env.clock answer_time) none none none
    mark_busy consultant_id

  unfoldable pub answer_session : Text → Option Session → M (Unit {0})
  unfolding record_answer
  answer_session call_uuid none = pure tt
  answer_session call_uuid (some session) = do
    at env answer_hset (
        modify_redis
          (update_call call_uuid λ s. record s { answer_time = some (env.clock answer_time) }))
    record_answer (id_field session.statistics_id) (id_field session.consultant_id)

  unfoldable pub answer_uuid : Option Text → M (Unit {0})
  unfolding answer_session
  answer_uuid none = pure tt
  answer_uuid (some call_uuid) = if not (is_nonempty call_uuid) then pure tt else do
    session ← at env session_hgetall (from_redis (λ r. get call_uuid r.calls))
    answer_session call_uuid session

  unfoldable pub handle_answer : Event → M (Unit {0})
  unfolding answer_uuid
  handle_answer event = answer_uuid (get (codes "Unique-ID") event)
