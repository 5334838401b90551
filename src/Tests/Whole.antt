-- ===== src/Tests/Whole.antt =====
-- The API and the worker together on the deployment: a call of 90 seconds with one tick.
use voip_platform.Base.{◌≡◌, refl, true, false, List, none, some, [], ◌∷◌, arith, nat_eq}
use voip_platform.Base.Dict.{get}
use voip_platform.Base.Int.{pos, ◌+ℤ◌, ◌-ℤ◌, min_ℤ}
use voip_platform.Base.Text.{text_eq, text_beq, codes}
use voip_platform.Base.Text.Numbers.{parse_int}
use voip_platform.Call.{authorize_call}
use voip_platform.Core.Monad.{World}
use voip_platform.Core.Quiet.{Reads}
use voip_platform.Decimal.{Decimal, dec, mul, of_ℤ, truncate}
use voip_platform.Lifecycle.{run_ticks}
use voip_platform.Lifecycle.Again.{IsForfeited, second_authorize_forfeits_block}
use voip_platform.Lifecycle.Charge.{IsCharged, call_charges_cost}
use voip_platform.Links.{AllLinked, has_row}
use voip_platform.Log.{Extends}
use voip_platform.Redis.{Session}
use voip_platform.Solvency.{IsSolvent}
use voip_platform.System.{stay, step, authorizing}
use voip_platform.Tests.Api.{authorized}
use voip_platform.Tests.Fixtures.{env_up, start, in_call, request, tick, hangup, uuid, open_session}
use voip_platform.Worker.Hangup.{handle_hangup, actual_cost_units_of}
use voip_platform.Worker.Loop.{dispatch}
use voip_platform.Interleaving.Api.{tick-cut}
use voip_platform.Interleaving.Ledger.{moves_spend, moves_balance}
use voip_platform.Auth.{get_customer_by_credit_code}
use voip_platform.Interleaving.Coherent.{Moves-uncached}
use voip_platform.Interleaving.Coherent.Uncached.{uncached}
use voip_platform.Interleaving.Linked.{Moves-AllLinked}
use voip_platform.Models.Keys.{distinct_ids}
use voip_platform.Interleaving.LateTick.{IsOrphan, late_tick_revives_session}
use voip_platform.Interleaving.Pause.{first_world, left_code, overtaken}
use voip_platform.Interleaving.Races.{duplicate_hangup_refunds_twice}
use voip_platform.Interleaving.Safety.{Moves-Solvent, Moves-Extends}
use voip_platform.Interleaving.Schedule.{Running, Pool, Start, Moves}
use voip_platform.Interleaving.Sequential.{Steps-Moves}
use voip_platform.Lifecycle.Cutoff.{all_continue, ticks_cut_off}
use voip_platform.Core.{Env}
use voip_platform.Credit.{tick_units}
use voip_platform.Tests.Worker.{billable}
use voip_platform.Worker.Answer.{Event}

abbrev opened : World
opened = (authorize_call env_up request start).1

abbrev opened_session : Session
opened_session = record {
  account_id = some 7;
  rate_per_second = some (dec 2400000000000000000000000000 29);
  rate_per_minute = some (dec 1440000000000000000000000000 27);
  start_time = some 1700000000000000;
  last_tick = some 1700000000000000;
  gateway = some (codes "voxbone-outbound");
  service_type = some 2;
  site_ivr_number_id = some 1;
  consultant_id = some (some 5);
  statistics_id = some (some 1);
  credit_before = some (dec 2000000000000000000000000000 26);
  total_deducted_units = some (pos 720000);
  answer_time = none;
  ttl = some 7200;
}

-- A call whose account has two units left.
abbrev nearly_empty : World
nearly_empty = record in_call { redis = record in_call.redis { credits = (7, pos 2) ∷ [] } }

call_charges_cost_example :
    let running = run_ticks env_up 7 uuid (60 ∷ []) (authorize_call env_up request start).1 in
    (before : World) × Reads start before
    × IsCharged env_up opened_session 7
        (pos 90)
        before
        running
        (handle_hangup env_up hangup running).1
unfolding authorized parse_int
call_charges_cost_example =
    call_charges_cost env_up request (60 ∷ []) hangup start {session = opened_session}
      {account_id = 7} {billsec = pos 90} {duration = pos 95} refl refl refl refl refl refl refl
      refl refl refl refl

-- The session after a second authorization of the same call.
abbrev opened_again : Session
opened_again = record opened_session {
  statistics_id = some (some 2);
  credit_before = some (dec 1280000000000000000000000000 26);
}

second_authorize_forfeits_block_example :
    let twice = (authorize_call env_up request (authorize_call env_up request start).1).1 in
    let running = run_ticks env_up 7 uuid (60 ∷ []) twice in
    (before : World) × Reads start before
    × IsForfeited env_up opened_session opened_again 7
        (pos 90)
        before
        running
        (handle_hangup env_up hangup running).1
unfolding authorized parse_int
second_authorize_forfeits_block_example =
    second_authorize_forfeits_block env_up env_up request request (60 ∷ []) hangup start
      {first = opened_session} {second = opened_again} {account_id = 7} {billsec = pos 90}
      {duration = pos 95} refl refl refl refl refl refl refl refl refl refl refl refl refl refl refl

-- There is no session at the start.
start_linked : AllLinked start
unfolding get
start_linked u s id found held = absurd (ground (arith, found))

-- The authorization as moves of a pool.
abbrev opening :
    (hs : List (Running Decimal)) × Moves
      (record { world = start; handlers = [] })
      (record { world = (authorize_call env_up request start).1; handlers = hs })
opening = Steps-Moves [] (step (authorizing env_up request start) (stay _))

Moves-AllLinked_example :
    has_row 1 uuid (authorize_call env_up request start).1.db.statistics ≡ true
unfolding authorized
Moves-AllLinked_example =
    Moves-AllLinked start (opening.1) start_linked uuid opened_session 1 refl refl

Moves-uncached_example :
    let opened = (authorize_call env_up request start).1 in
    (get_customer_by_credit_code env_up (codes "PIN") opened).0
    ≡ (get_customer_by_credit_code env_up (codes "PIN") (uncached opened)).0
unfolding distinct_ids
Moves-uncached_example = Moves-uncached start (opening.1) refl refl env_up (codes "PIN")

-- A tick that has read its session when the hangup of the call is handled.
abbrev raced : World
raced =
    (left_code (tick-cut env_up uuid 7 60) in_call
      (dispatch env_up hangup (first_world (tick-cut env_up uuid 7 60) in_call)).1).1

abbrev race :
    (hs : List (Running Decimal)) × Moves
      (record { world = in_call; handlers = [] })
      (record { world = raced; handlers = hs })
race = overtaken in_call (Start.ticking env_up tick) (Start.handling env_up hangup)

Moves-Solvent_example : IsSolvent 7 raced
unfolding get
Moves-Solvent_example = Moves-Solvent 7 race.1 (pos 1280000, refl, omega arith)

moves_balance_example : get 7 raced.redis.credits ≡ some (pos 1280000 -ℤ moves_spend 7 race.1)
unfolding get
moves_balance_example = moves_balance 7 race.1 refl

Moves-Extends_example : Extends in_call raced
Moves-Extends_example = Moves-Extends race.1

duplicate_hangup_refunds_twice_example :
    (p : Pool Decimal) × Moves (record { world = in_call; handlers = [] }) p
    × (let over = pos 720000 -ℤ actual_cost_units_of env_up (dec 24 3) (pos 90) in
        get 7 p.world.redis.credits ≡ some (pos 1280000 +ℤ over +ℤ over))
unfolding billable get text_beq actual_cost_units_of mul of_ℤ truncate ◌-ℤ◌
duplicate_hangup_refunds_twice_example =
    duplicate_hangup_refunds_twice env_up hangup in_call billable refl refl refl refl refl

late_tick_revives_session_example :
    (p : Pool Decimal) × Moves (record { world = in_call; handlers = [] }) p
    × IsOrphan uuid (tick_units env_up (dec 24 3) 60) p.world
    × (get 7 p.world.redis.credits
        ≡ some (
            pos 1280000
            +ℤ pos 720000
            -ℤ min_ℤ (pos 720000) (actual_cost_units_of env_up (dec 24 3) (pos 90))
            -ℤ tick_units env_up (dec 24 3) 60))
    × ((later : Env Decimal) (again : Event)
        → get (codes "Unique-ID") again ≡ some uuid
        → (handle_hangup later again p.world).1 ≡ p.world)
unfolding billable get text_beq actual_cost_units_of mul of_ℤ truncate ◌-ℤ◌ ◌+ℤ◌ min_ℤ
late_tick_revives_session_example =
    late_tick_revives_session env_up env_up 60 hangup in_call billable refl refl refl
      (unfold tick_units in omega arith) refl refl refl refl refl refl

ticks_cut_off_example : all_continue env_up 7 uuid (60 ∷ 60 ∷ 60 ∷ []) nearly_empty ≡ false
unfolding get text_beq tick_units mul of_ℤ truncate ◌-ℤ◌
ticks_cut_off_example =
    ticks_cut_off env_up 7 uuid {b = pos 720002} (60 ∷ 60 ∷ 60 ∷ []) 2 nearly_empty
      (record {
        session = open_session;
        taken = pos 720000;
        found = refl;
        account = refl;
        second_price = refl;
        minute_price = refl;
        total = refl;
        held = refl;
      })
      refl (omega arith, (omega arith, (omega arith, tt))) (omega arith) refl refl
