-- ===== src/Worker/Answer/Effect.antt =====
-- What CHANNEL_ANSWER does to a call.
use voip_platform.Base.{ℕ, ◌≡◌, true, false, none, some, [], ◌∷◌, ◌++◌, arith, ◌==◌, nat_eq}
use voip_platform.Base.Dict.{get}
use voip_platform.Base.Text.{Text, text_eq, codes, is_nonempty}
use voip_platform.Core.{
  Env, answer_time, session_hgetall, answer_hset, connected_update, connected_tracing, busy_update,
}
use voip_platform.Core.Monad.{World, ok}
use voip_platform.Models.{Db, TracingStatus, tracing_code}
use voip_platform.Models.Query.{update_where}
use voip_platform.Redis.{Session, update_call}
use voip_platform.Worker.Answer.{Event, handle_answer, answer_session, record_answer}
use voip_platform.Worker.Cdr.{set_connected_time, append_tracing, update_consultant_status}

-- The tables with the row connected, one more tracing and the consultant busy.
abbrev pub answered_tables : (now statistics_id consultant_id : ℕ) → Db → Db
answered_tables now statistics_id consultant_id db = record db {
  statistics =
      update_where (λ row. row.id == statistics_id)
        (λ row. record row { connected_time = some now }) db.statistics;
  tracings =
      db.tracings
      ++ (record {
        statistics_id = statistics_id;
        timestamp = now;
        status = tracing_code TracingStatus.connected_time;
        info = none;
        credit_before = none;
        credit_after = none;
      }
          ∷ []);
  consultants =
      update_where (λ c. c.id == consultant_id) (λ c. record c { ivr_status = 2 }) db.consultants;
}

module _ {F : Type 0} (env : Env F) where
  record_answer_lem :
      (statistics_id consultant_id : ℕ) (w : World)
      → env.fails connected_update ≡ false
      → env.fails connected_tracing ≡ false
      → env.fails busy_update ≡ false
      → record_answer env (some statistics_id) (some consultant_id) w ≡ (
        ok tt,
        record w { db = answered_tables (env.clock answer_time) statistics_id consultant_id w.db },
      )
  unfolding record_answer set_connected_time append_tracing update_consultant_status
  record_answer_lem statistics_id consultant_id w f1 f2 f3 = ground arith

  -- An answer of a call whose session has a statistics id and a consultant sets the time of answer
  -- in the session and in the row, appends one tracing of the connection, sets the consultant busy,
  -- and changes nothing else, if the event names the call, the uuid is not empty and none of its
  -- calls of Redis and the database fails.
  pub handle_answer_lem :
      (event : Event) (w : World) {call_uuid : Text} {session : Session}
      {statistics_id consultant_id : ℕ}
      → get (codes "Unique-ID") event ≡ some call_uuid
      → is_nonempty call_uuid ≡ true
      → get call_uuid w.redis.calls ≡ some session
      → session.statistics_id ≡ some (some statistics_id)
      → session.consultant_id ≡ some (some consultant_id)
      → env.fails session_hgetall ≡ false
      → env.fails answer_hset ≡ false
      → env.fails connected_update ≡ false
      → env.fails connected_tracing ≡ false
      → env.fails busy_update ≡ false
      → let now = env.clock answer_time in
        handle_answer env event w ≡ (
          ok tt,
          record {
            redis = update_call call_uuid (λ s. record s { answer_time = some now }) w.redis;
            db = answered_tables now statistics_id consultant_id w.db;
          },
        )
  unfolding handle_answer answer_session
  handle_answer_lem event w {call_uuid} {session} {statistics_id} {consultant_id} named nonempty
        found linked held f1 f2 f3 f4 f5 =
      ground (
        arith,
        record_answer_lem statistics_id consultant_id
            (record w {
              redis =
                  update_call call_uuid
                    (λ s. record s { answer_time = some (env.clock answer_time) }) w.redis;
            })
            f3 f4 f5,
      )
