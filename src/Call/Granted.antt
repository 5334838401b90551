-- ===== src/Call/Granted.antt =====
-- What an authorized call leaves behind.
use voip_platform.Base.{
  ℕ, ◌+◌, ◌≡◌, refl, true, some, [], ◌∷◌, ◌++◌, arith, nat_eq, inl, inr, Bool-cases, Option-cases,
  ==-refl,
}
use voip_platform.Base.Dict.{get, get-put}
use voip_platform.Base.Int.{ℤ, pos, ltb_ℤ, ◌≤ℤ◌, ◌-ℤ◌}
use voip_platform.Base.Text.{Text, text_eq}
use voip_platform.Core.{Env, did_not_found}
use voip_platform.Core.Monad.{World, Result, ok, err, lift, ◌>>=◌}
use voip_platform.Core.Quiet.{Reads}
use voip_platform.Credit.{create_call_session, session_fields}
use voip_platform.Credit.Deduct.{with_credit, atomic_deduct_credit_lem}
use voip_platform.Routing.{get_gateway_from_consultant}
use voip_platform.Call.{
  Quote, id_of, destination, stub_row, quote_call, slot_units_of, open_call, admit_call, answer,
  authorize_call,
}
use voip_platform.Call.Found.{IsFoundIn, quote_call-IsFoundIn}
use voip_platform.Call.Priced.{IsPriced, IsBlock, slot_units_of-IsBlock}
use voip_platform.Call.Pricing.{quote_call-IsPriced}
use voip_platform.Call.Quoting.{IsQuote, quote_call-Quiet, quote_call-IsQuote}
use voip_platform.Decimal.{div, dec}
use voip_platform.Redis.{Redis, Session, session_or_new, update_call, expire_call}
use voip_platform.Models.{Statistics}
use voip_platform.Schemas.{ApiResponse, CallAuthorizeRequest, CallAuthorizeData}

-- The call is open: its first block is paid, its row is written and its session holds its price.
pub record IsOpen (block_max : ℕ) (call_uuid : Text) (q : Quote) (w w' : World) : Type 0 where
  pub session : Session
  pub row : Statistics
  pub balance : ℤ
  pub held : get q.customer.id w.redis.credits ≡ some balance
  pub covered : slot_units_of block_max q.rate_per_minute q.avb_time ≤ℤ balance
  pub paid :
      get q.customer.id w'.redis.credits
      ≡ some (balance -ℤ slot_units_of block_max q.rate_per_minute q.avb_time)
  pub opened : get call_uuid w'.redis.calls ≡ some session
  pub account : session.account_id ≡ some q.customer.id
  pub price : session.rate_per_minute ≡ some q.rate_per_minute
  pub second_price : session.rate_per_second ≡ some (div q.rate_per_minute (dec 60 0))
  pub total :
      session.total_deducted_units ≡ some (slot_units_of block_max q.rate_per_minute q.avb_time)
  pub before : session.credit_before ≡ some q.current_credits
  pub linked : session.statistics_id ≡ some (some row.id)
  pub expires : session.ttl ≡ some 7200
  pub row_id : row.id ≡ w.db.next_statistics_id
  pub row_uuid : row.unique_id ≡ call_uuid
  pub written : w'.db.statistics ≡ w.db.statistics ++ (row ∷ [])
  pub tracings : w'.db.tracings ≡ w.db.tracings

module _ {F : Type 0} (env : Env F) (body : CallAuthorizeRequest) (q : Quote) where
  abbrev pub slot : ℤ
  slot = slot_units_of env.settings.credit_block_max_seconds q.rate_per_minute q.avb_time

  abbrev pub fields : ℕ → Session → Session
  fields statistics_id =
      session_fields env q.customer.id q.rate_per_minute (get_gateway_from_consultant q.consultant)
        q.did.type_id q.did.id (id_of q.consultant) (some statistics_id) q.current_credits slot

  abbrev pub new_session : World → Session
  new_session w =
      record (fields w.db.next_statistics_id (session_or_new (get body.call_uuid w.redis.calls))) {
        ttl = some 7200;
      }

  abbrev pub opened_redis : ℤ → World → Redis
  opened_redis balance w = expire_call body.call_uuid 7200 (
      update_call body.call_uuid (fields w.db.next_statistics_id)
        (with_credit q.customer.id (balance -ℤ slot) w).redis)

  abbrev pub granted_data : CallAuthorizeData F
  granted_data = record {
    authorized = true;
    account_id = q.customer.id;
    gateway = get_gateway_from_consultant q.consultant;
    destination_number = destination q.phone_number body.dialed_number;
    max_duration_seconds = q.avb_time;
    rate_per_minute = env.floats.of_decimal q.rate_per_minute;
    currency = q.customer.currency_code;
    service_type = q.did.type_id;
    call_uuid = body.call_uuid;
  }

  pub open_runs :
      (w : World) {response : ApiResponse (CallAuthorizeData F)}
      → (open_call env body q w).0 ≡ ok response
      → (balance : ℤ) × (get q.customer.id w.redis.credits ≡ some balance)
        × (slot ≤ℤ balance)
        × ((open_call env body q w).1.redis ≡ opened_redis balance w)
        × ((open_call env body q w).1.db ≡ record w.db {
          statistics = w.db.statistics ++ (stub_row env body q w.db.next_statistics_id ∷ []);
          next_statistics_id = w.db.next_statistics_id + 1;
        })
        × (response.payload ≡ some granted_data)
  unfolding open_call create_call_session
  open_runs w e = elim (Option-cases (get q.customer.id w.redis.credits)) [
    | inl missing ↦ absurd (ground (arith, atomic_deduct_credit_lem env q.customer.id slot w))
    | inr (balance, held) ↦
        let charged = atomic_deduct_credit_lem env q.customer.id slot w in
        (
          balance,
          held,
          ground (arith, charged),
          ground (arith, charged),
          ground (arith, charged),
          ground (arith, charged),
        )
  ]

  pub new_session_held :
      (balance : ℤ) (w : World)
      → get body.call_uuid (opened_redis balance w).calls ≡ some (new_session w)
  new_session_held balance w = grind (arith, get-put, ==-refl body.call_uuid)

  open_call-IsOpen :
      (w : World) {response : ApiResponse (CallAuthorizeData F)}
      → (open_call env body q w).0 ≡ ok response
      → IsOpen env.settings.credit_block_max_seconds body.call_uuid q w (open_call env body q w).1
  open_call-IsOpen w e =
      let (balance, held, covered, redis, db, _) = open_runs w e in
      record {
        session = new_session w;
        row = stub_row env body q w.db.next_statistics_id;
        balance = balance;
        held = held;
        covered = covered;
        paid = rw redis (
            ground (
              arith,
              get-put q.customer.id q.customer.id (balance -ℤ slot) w.redis.credits,
              ==-refl q.customer.id,
            ));
        opened = rw redis (new_session_held balance w);
        account = refl;
        price = refl;
        second_price = refl;
        total = refl;
        before = refl;
        linked = refl;
        expires = refl;
        row_id = refl;
        row_uuid = refl;
        written = rw db refl;
        tracings = rw db refl;
      }

module _ {F : Type 0} (env : Env F) (body : CallAuthorizeRequest) where
  -- A quote made from the tables and the cache of `u`, with the balance of `v`.
  abbrev IsMade : World → World → Quote → Type 0
  IsMade u v q =
      IsQuote q v
      × IsPriced body u q
      × IsFoundIn body u.db q
      × IsBlock env.settings.credit_block_max_seconds q
          (slot_units_of env.settings.credit_block_max_seconds q.rate_per_minute q.avb_time)

  abbrev pub IsGranted : World → World → World → Type 0
  IsGranted u v w' =
      (q : Quote) × IsMade u v q
      × (pos env.settings.credit_min_seconds ≤ℤ q.avb_time)
      × IsOpen env.settings.credit_block_max_seconds body.call_uuid q v w'

  pub answered :
      (r : Result (ApiResponse (CallAuthorizeData F)))
      → (answer env r).status_code ≡ 200
      → (response : ApiResponse (CallAuthorizeData F)) × (r ≡ ok response)
  answered (ok response) h = (response, refl)
  answered (err did_not_found) h = absurd (omega arith)
  answered (err _) h = absurd (omega arith)

  admit_call-IsGranted :
      (u : World) (q : Quote) (w : World)
      → IsMade u w q
      → (answer env (admit_call env body q w).0).status_code ≡ 200
      → IsGranted u w (admit_call env body q w).1
  unfolding admit_call
  admit_call-IsGranted u q w made h =
      elim (Bool-cases (ltb_ℤ q.avb_time (pos env.settings.credit_min_seconds))) [
        | inl short ↦ absurd (ground arith)
        | inr enough ↦
            let opens : admit_call env body q w ≡ open_call env body q w = ground arith in
            let (response, e) = answered (open_call env body q w).0 (rw opens at h) in
            (q, made, ground arith, rw opens (open_call-IsOpen env body q w e))
      ]

  continue-IsGranted :
      (u : World) (r : Result Quote) (w : World)
      → ((q : Quote) → r ≡ ok q → IsMade u w q)
      → let (r', w') = (lift r >>= admit_call env body) w in
        (answer env r').status_code ≡ 200 → IsGranted u w w'
  continue-IsGranted u (ok q) w made h = admit_call-IsGranted u q w (made q refl) h
  continue-IsGranted u (err did_not_found) w made h = absurd (omega arith)
  continue-IsGranted u (err _) w made h = absurd (omega arith)

  pub authorize_call-IsGranted :
      (w : World)
      → (authorize_call env body w).0.status_code ≡ 200
      → (v : World) × Reads w v × IsGranted w v (authorize_call env body w).1
  unfolding authorize_call
  authorize_call-IsGranted w h =
      let (r, v) = quote_call env body w in
      (
        v,
        (quote_call-Quiet env body).run w,
        continue-IsGranted w r v
            (λ q e. (
              (quote_call-IsQuote env body).run w q e,
              quote_call-IsPriced env body w q e,
              quote_call-IsFoundIn env body w q e,
              slot_units_of-IsBlock env.settings.credit_block_max_seconds q,
            ))
            h,
      )
