-- ===== src/Call/Blind.antt =====
-- What authorize_call calls of auth_service and credit_service, where the consultants are restated.
use voip_platform.Base.{ℕ, refl, Bool, Option, none, some, [], ◌∷◌, ◌++◌, ◌+◌}
use voip_platform.Base.Int.{ℤ}
use voip_platform.Base.Text.{Text}
use voip_platform.Auth.{
  get_customer_by_credit_code, check_cached, select_customer, get_country_vat, get_fx_rate,
}
use voip_platform.Call.{fx_rate_of, open_call, insert_stub, stub_row, admit_call, Quote}
use voip_platform.Core.{Env, deduct_eval}
use voip_platform.Core.Blind.{Blind, Blind-bind, Blind-at, Blind-lift, blind_rules}
use voip_platform.Core.Monad.{M, ok, lift, at}
use voip_platform.Credit.{
  load_credit_to_redis, get_credit_balance_units, balance_or_seed, seed_from, customer_or_select,
  deduct_script, deduct_reply, atomic_deduct_credit, create_call_session,
}
use voip_platform.Decimal.{Decimal}
use voip_platform.Models.{Db, Consultant, CreditsCustomer}
use voip_platform.Redis.{AccountMeta}
use voip_platform.Routing.Restated.{all_restated}
use voip_platform.Schemas.{CallAuthorizeRequest}

module _ (status : Consultant → ℕ) (blocked deleted : Consultant → Bool) where
  abbrev g : Db → Db
  g = all_restated status blocked deleted

  module _ {F : Type 0} (env : Env F) where
    load-Blind : (id : ℕ) (d : Decimal) → Blind g (load_credit_to_redis env id d)
    unfolding load_credit_to_redis
    load-Blind id d = search blind_rules

    check_cached-Blind : (m : Option AccountMeta) → Blind g (check_cached env m)
    unfolding check_cached
    check_cached-Blind none = search blind_rules
    check_cached-Blind (some m) = search blind_rules

    select_customer-Blind : (code : Text) (id : Option ℕ) → Blind g (select_customer env code id)
    unfolding select_customer
    select_customer-Blind code none = search blind_rules
    select_customer-Blind code (some id) = search blind_rules

    pub get_customer_by_credit_code-Blind :
        (code : Text) → Blind g (get_customer_by_credit_code env code)
    unfolding get_customer_by_credit_code
    get_customer_by_credit_code-Blind code =
        search (blind_rules, check_cached-Blind, select_customer-Blind, load-Blind) depth 25

    pub get_country_vat-Blind : (id : ℕ) → Blind g (get_country_vat env id)
    unfolding get_country_vat
    get_country_vat-Blind id = search blind_rules

    get_fx_rate-Blind : (a b : Text) → Blind g (get_fx_rate env a b)
    unfolding get_fx_rate
    get_fx_rate-Blind a b = search blind_rules

    pub fx_rate_of-Blind :
        (c : Option Consultant) (k : CreditsCustomer) → Blind g (fx_rate_of env c k)
    unfolding fx_rate_of
    fx_rate_of-Blind none k = search blind_rules
    fx_rate_of-Blind (some c) k = search (blind_rules, get_fx_rate-Blind)

    customer_or_select-Blind :
        (id : ℕ) (k : Option CreditsCustomer) → Blind g (customer_or_select env id k)
    unfolding customer_or_select
    customer_or_select-Blind id none = search blind_rules
    customer_or_select-Blind id (some k) = search blind_rules

    seed_from-Blind : (id : ℕ) (k : Option CreditsCustomer) → Blind g (seed_from env id k)
    unfolding seed_from
    seed_from-Blind id none = search blind_rules
    seed_from-Blind id (some k) = search (blind_rules, load-Blind)

    balance_or_seed-Blind :
        (id : ℕ) (k : Option CreditsCustomer) (o : Option ℤ) → Blind g (balance_or_seed env id k o)
    unfolding balance_or_seed
    balance_or_seed-Blind id k none =
        search (blind_rules, customer_or_select-Blind, seed_from-Blind)
    balance_or_seed-Blind id k (some n) = search blind_rules

    pub get_credit_balance_units-Blind :
        (id : ℕ) (k : Option CreditsCustomer) → Blind g (get_credit_balance_units env id k)
    unfolding get_credit_balance_units
    get_credit_balance_units-Blind id k = search (blind_rules, balance_or_seed-Blind)

    atomic_deduct_credit-Blind : (id : ℕ) (n : ℤ) → Blind g (atomic_deduct_credit env id n)
    unfolding atomic_deduct_credit
    atomic_deduct_credit-Blind id n =
        Blind-bind (at env deduct_eval run_script) (λ code. lift (deduct_reply code))
          (Blind-at env deduct_eval run_script (record { run = λ w. refl }))
          (λ code. Blind-lift (deduct_reply code))
      where
        run_script : M ℤ
        run_script w =
            let (code, r) = deduct_script id n w.redis in (ok code, record w { redis = r })

    insert_stub-Blind : (body : CallAuthorizeRequest) (q : Quote) → Blind g (insert_stub env body q)
    unfolding insert_stub
    insert_stub-Blind body q = search (blind_rules, inserts)
      where
        inserts : Blind g (λ w.
            let id = w.db.next_statistics_id in
            (
              ok id,
              record w {
                db = record w.db {
                  statistics = w.db.statistics ++ (stub_row env body q id ∷ []);
                  next_statistics_id = id + 1;
                };
              },
            ))
        inserts = record { run = λ w. refl }

    open_call-Blind : (body : CallAuthorizeRequest) (q : Quote) → Blind g (open_call env body q)
    unfolding open_call create_call_session
    open_call-Blind body q =
        search (blind_rules, atomic_deduct_credit-Blind, insert_stub-Blind) depth 25

    pub admit_call-Blind :
        (body : CallAuthorizeRequest) (q : Quote) → Blind g (admit_call env body q)
    unfolding admit_call
    admit_call-Blind body q = search (blind_rules, open_call-Blind)
