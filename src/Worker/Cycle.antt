-- ===== src/Worker/Cycle.antt =====
-- billing_worker/worker.py: one connection of run_worker, from the client to the tasks that it starts.
pub mod Fuel
pub mod Blind
use voip_platform.Base.{
  ℕ, zero, suc, Bool, true, false, Option, none, some, List, [], ◌∷◌, if◌then◌else◌,
}
use voip_platform.Base.Dict.{keys}
use voip_platform.Base.Text.{Text, text_eq, codes}
use voip_platform.Core.{Error, Env, session_keys}
use voip_platform.Core.Monad.{World, Result, ok, err}
use voip_platform.Worker.Answer.{Event}
use voip_platform.Worker.Esl.Connection.{
  Link, Client, new_client, connect, subscribe, send_api, receive_event, disconnect, is_connected,
}
use voip_platform.Worker.Reconcile.{reconcile_on_startup}

-- `SUBSCRIBED_EVENTS`
abbrev pub subscribed_events : List Text
subscribed_events =
    codes "CHANNEL_HANGUP_COMPLETE" ∷ codes "CHANNEL_ANSWER" ∷ codes "CHANNEL_CREATE" ∷ []

-- How a loop over the events ends.
pub data Ending : Type 0 where
  over raised out_of_fuel : Ending

pub record Listened : Type 0 where
  pub events : List Event
  pub ending : Ending
  pub client : Client

abbrev pub with_event : Event → Listened → Listened
with_event event rest = record rest { events = event ∷ rest.events }

-- The `while` of `event_loop`: the events that it reads, each of which starts a task.
unfoldable pub listen : ℕ → Client → Listened
unfolding receive_event
listen zero client = record { events = []; ending = out_of_fuel; client = client }
listen (suc fuel) client =
    let (r, client') = receive_event client in
    let rest = listen fuel client' in
    if is_connected client
    then elim r [
      | ok none ↦ record { events = []; ending = over; client = client' }
      | ok (some event) ↦ with_event event rest
      | err e ↦ record { events = []; ending = raised; client = client' }
    ]
    else record { events = []; ending = over; client = client }

-- `event_loop`
unfoldable pub event_loop : ℕ → Client → Listened
unfolding listen subscribe
event_loop fuel client =
    let (r, client') = subscribe subscribed_events client in
    elim r [
      | ok _ ↦ listen fuel client'
      | err e ↦ record { events = []; ending = raised; client = client' }
    ]

abbrev is_some_key : List Text → Bool
is_some_key [] = false
is_some_key (_ ∷ _) = true

abbrev pub text_or_empty : Result Text → Text
text_or_empty (ok text) = text
text_or_empty (err e) = []

module _ {F : Type 0} (env : Env F) where
  -- Whether the recovery gets as far as `show calls`.
  unfoldable pub asks : World → Bool
  asks w = if env.fails session_keys then false else is_some_key (keys w.redis.calls)

  -- `reconcile_on_startup(esl, redis)`: an answer that fails counts as an empty one.
  unfoldable pub reconcile_on : Client → World → (Result (Unit {0}) × Client) × World
  unfolding asks send_api reconcile_on_startup
  reconcile_on client w =
      let (answer, asked) = send_api (codes "show calls") client in
      let (r, w') = reconcile_on_startup env (if asks w then text_or_empty answer else []) w in
      ((r, if asks w then asked else client), w')

  -- What a cycle of `run_worker` leaves: the events that have started tasks, and the world before any
  -- of these has run.
  pub record Cycle : Type 0 where
    pub started : List Event
    pub world : World
    pub client : Client

  -- Every exception is logged, and the client disconnected.
  abbrev pub failing : Client → World → Cycle
  failing client w = record { started = []; world = w; client = disconnect client }

  abbrev pub after_recovery : ℕ → Result (Unit {0}) → Client → World → Cycle
  after_recovery fuel (err e) client w = failing client w
  after_recovery fuel (ok _) client w =
      let heard = event_loop fuel client in
      record { started = heard.events; world = w; client = disconnect heard.client }

  abbrev pub after_connect : ℕ → Result (Unit {0}) → Client → World → Cycle
  after_connect fuel (err e) client w = failing client w
  after_connect fuel (ok _) client w =
      let ((recovered, client'), w') = reconcile_on client w in
      after_recovery fuel recovered client' w'

  -- The body of the `while`, up to the wait.
  unfoldable pub cycle : ℕ → Text → Option Link → World → Cycle
  unfolding connect reconcile_on event_loop disconnect
  cycle fuel password dialed w =
      let (r, client) = connect dialed (new_client password) in after_connect fuel r client w
