-- ===== src/Interleaving/Api/Caching.antt =====
-- The API's handlers keep the account cache coherent.
use voip_platform.Base.{ℕ, ◌≡◌, true, false, Option, some, List, nat_eq}
use voip_platform.Base.Dict.{get}
use voip_platform.Base.Text.{Text, text_eq}
use voip_platform.Call.{Quote}
use voip_platform.Core.{Env, Site, account_get, account_not_found, account_suspended}
use voip_platform.Core.Coroutine.{
  Coroutine-pure, Coroutine-raise, Coroutine-if, Coroutine-or_raise, Coroutine-bind,
}
use voip_platform.Core.Coroutine.AllActs.{AllActs, AllActs-act, acts_rules}
use voip_platform.Core.Coroutine.Obeys.{Obeys, Obeys-bind, Obeys-pure}
use voip_platform.Core.Monad.{M, pure, raise}
use voip_platform.Interleaving.{Handler}
use voip_platform.Schemas.{CallAuthorizeRequest}
use voip_platform.Decimal.{Decimal}
use voip_platform.Base.Int.{ℤ}
use voip_platform.Interleaving.Api.{
  known_user-cut, country_vat-cut, balance-cut, lookup_did-cut, consultant-cut, fx_rate_of-cut,
  quote_customer-cut, quote_call-cut, session-cut, insert-cut, deduct-cut, open-cut, admit-cut,
  authorize_call-cut, check_cached-cut, select_customer-cut, customer-cut, load_credit-cut,
}
use voip_platform.Interleaving.Api.Plain.{
  load_credit-IsPlain, known_user-IsPlain, country_vat-IsPlain, fx_rate_of-IsPlain, balance-IsPlain,
  lookup_did-IsPlain, consultant-IsPlain,
}
use voip_platform.Interleaving.Caching.{
  IsOwner, AllCoherent, Cacheless, Obeys-Cacheless, Obeys-plain,
}
use voip_platform.Interleaving.Cuts.{on_call-cut, expire-cut, fetch-cut}
use voip_platform.Interleaving.Plain.{IsPlain, plain_rules}
use voip_platform.Models.{CreditsCustomer, SiteIvrNumber, Consultant, ConsultantPhoneNumber}
use voip_platform.Models.Keys.{distinct_ids}
use voip_platform.Redis.{Session, AccountMeta}
use voip_platform.Interleaving.Api.Owner.{
  CachedOk, IdOk, FoundOk, fetched, checked, selected, owned, unblocked, stored,
}

abbrev pub Keeping :
    {F : Type 0} (env : Env F)
    → List CreditsCustomer
    → {A : Type 0} {m : M A} → Handler env m
    → Type 0
Keeping env customers c = Obeys (AllCoherent customers) (λ _. Unit) c

module _ {F : Type 0} (env : Env F) (customers : List CreditsCustomer) (code : Text) where
  loaded :
      (c : CreditsCustomer) → Keeping env customers (load_credit-cut env c.id c.current_credits)
  loaded c = Obeys-plain env customers _ (load_credit-IsPlain env c.id c.current_credits)

  plainly : {A : Type 0} {m : M A} (c : Handler env m) → IsPlain c → Keeping env customers c
  plainly = Obeys-plain env customers

  returned : {A : Type 0} (a : A) → Keeping env customers (Coroutine-pure a)
  returned a = Obeys-pure a tt

  -- What follows an action or a test may use what that has found out.
  module _ {B : Type 0} where
    after_fetched :
        {f : Option AccountMeta → M B} (k : (a : Option AccountMeta) → Handler env (f a))
        → ((a : Option AccountMeta) → CachedOk customers code a → Keeping env customers (k a))
        → Keeping env customers
            (Coroutine-bind _ f (fetch-cut env account_get (λ r. get code r.accounts)) k)
    after_fetched k h = Obeys-bind _ k (fetched env customers code) h

    after_checked :
        {f : Option ℕ → M B} (cached : Option AccountMeta) (k : (a : Option ℕ) → Handler env (f a))
        → CachedOk customers code cached
        → ((a : Option ℕ) → IdOk customers code a → Keeping env customers (k a))
        → Keeping env customers (Coroutine-bind _ f (check_cached-cut env cached) k)
    after_checked cached k ok_cached h =
        Obeys-bind _ k (checked env customers code cached ok_cached) h

    after_selected :
        {f : Option CreditsCustomer → M B} (account_id : Option ℕ)
        (k : (a : Option CreditsCustomer) → Handler env (f a))
        → distinct_ids customers ≡ true
        → IdOk customers code account_id
        → ((a : Option CreditsCustomer) → FoundOk customers code a → Keeping env customers (k a))
        → Keeping env customers (Coroutine-bind _ f (select_customer-cut env code account_id) k)
    after_selected account_id k d ok_id h =
        Obeys-bind _ k (selected env customers code account_id d ok_id) h

    after_owned :
        {f : CreditsCustomer → M B} (found : Option CreditsCustomer)
        (k : (a : CreditsCustomer) → Handler env (f a))
        → FoundOk customers code found
        → ((a : CreditsCustomer) → IsOwner customers code a → Keeping env customers (k a))
        → Keeping env customers (Coroutine-bind _ f (Coroutine-or_raise found account_not_found) k)
    after_owned found k ok_found h = Obeys-bind _ k (owned env customers code found ok_found) h

    after_unblocked :
        {f : Unit {0} → M B} (c : CreditsCustomer) (k : (a : Unit {0}) → Handler env (f a))
        → ((a : Unit {0}) → c.is_blocked ≡ false → Keeping env customers (k a))
        → Keeping env customers (
            Coroutine-bind _ f
              (Coroutine-if c.is_blocked
                (raise account_suspended)
                (pure tt)
                (Coroutine-raise account_suspended)
                (Coroutine-pure tt))
              k)
    after_unblocked c k h = Obeys-bind _ k (unblocked env customers code c) h

    after_any :
        {A : Type 0} {m : M A} {f : A → M B} (c : Handler env m) (k : (a : A) → Handler env (f a))
        → Keeping env customers c
        → ((a : A) → Keeping env customers (k a))
        → Keeping env customers (Coroutine-bind m f c k)
    after_any c k h s = Obeys-bind c k h (λ a _. s a)

  customer-Obeys : distinct_ids customers ≡ true → Keeping env customers (customer-cut env code)
  unfolding customer-cut
  customer-Obeys d =
      search
        (
          plain_rules,
          after_fetched,
          after_checked,
          after_selected,
          after_owned,
          after_unblocked,
          after_any,
          stored env customers code,
          loaded,
          plainly,
          returned,
        )
        depth 30

module _ {F : Type 0} (env : Env F) (customers : List CreditsCustomer) where
  Obeys-any :
      {A B : Type 0} {m : M A} {f : A → M B} (c : Handler env m) (k : (a : A) → Handler env (f a))
      → Keeping env customers c
      → ((a : A) → Keeping env customers (k a))
      → Keeping env customers (Coroutine-bind m f c k)
  Obeys-any c k h s = Obeys-bind c k h (λ a _. s a)

  lookup_did-Obeys : (number : Text) → Keeping env customers (lookup_did-cut env number)
  lookup_did-Obeys number = Obeys-plain env customers _ (lookup_did-IsPlain env number)

  consultant-Obeys : (did : ℕ) → Keeping env customers (consultant-cut env did)
  consultant-Obeys did = Obeys-plain env customers _ (consultant-IsPlain env did)

  known_user-Obeys : (number : Text) → Keeping env customers (known_user-cut env number)
  known_user-Obeys number = Obeys-plain env customers _ (known_user-IsPlain env number)

  country_vat-Obeys : (id : ℕ) → Keeping env customers (country_vat-cut env id)
  country_vat-Obeys id = Obeys-plain env customers _ (country_vat-IsPlain env id)

  fx_rate_of-Obeys :
      (c : Option Consultant) (k : CreditsCustomer) → Keeping env customers (fx_rate_of-cut env c k)
  fx_rate_of-Obeys c k = Obeys-plain env customers _ (fx_rate_of-IsPlain env c k)

  balance-Obeys :
      (id : ℕ) (c : Option CreditsCustomer) → Keeping env customers (balance-cut env id c)
  balance-Obeys id c = Obeys-plain env customers _ (balance-IsPlain env id c)

  pure-Obeys : {A : Type 0} (a : A) → Keeping env customers (Coroutine-pure a)
  pure-Obeys a = Obeys-pure a tt

  quote_customer-Obeys :
      distinct_ids customers ≡ true
      → (body : CallAuthorizeRequest) (did : SiteIvrNumber)
        (found : Option Consultant × Option ConsultantPhoneNumber)
      → Keeping env customers (quote_customer-cut env body did found)
  unfolding quote_customer-cut
  quote_customer-Obeys d body did found =
      Obeys-any (known_user-cut env body.caller_id) _ (known_user-Obeys body.caller_id) (λ _.
        Obeys-any (customer-cut env body.account_token) _
          (customer-Obeys env customers body.account_token d)
          (λ customer. Obeys-any (country_vat-cut env _) _ (country_vat-Obeys _) (λ vat_rate.
            Obeys-any (fx_rate_of-cut env found.0 customer) _ (fx_rate_of-Obeys found.0 customer)
              (λ fx_rate.
                Obeys-any (balance-cut env customer.id (some customer)) _
                  (balance-Obeys customer.id (some customer)) (λ units. pure-Obeys _)))))

  quote_call-Obeys :
      distinct_ids customers ≡ true
      → (body : CallAuthorizeRequest) → Keeping env customers (quote_call-cut env body)
  unfolding quote_call-cut
  quote_call-Obeys d body =
      search (Obeys-any, lookup_did-Obeys, consultant-Obeys, quote_customer-Obeys d) depth 15

  on_call-Cacheless :
      (site : Site) (u : Text) (f : Session → Session)
      → AllActs Cacheless (on_call-cut env site u f)
  unfolding on_call-cut
  on_call-Cacheless site u f = AllActs-act _ tt

  expire-Cacheless : (site : Site) (u : Text) (n : ℕ) → AllActs Cacheless (expire-cut env site u n)
  unfolding expire-cut
  expire-Cacheless site u n = AllActs-act _ tt

  session-Cacheless :
      (u : Text) (a : ℕ) (m : Decimal) (g : Text) (t n : ℕ) (c st : Option ℕ) (b : Decimal) (i : ℤ)
      → AllActs Cacheless (session-cut env u a m g t n c st b i)
  unfolding session-cut
  session-Cacheless u a m g t n c st b i = search (acts_rules, on_call-Cacheless, expire-Cacheless)

  insert-Cacheless :
      (body : CallAuthorizeRequest) (q : Quote) → AllActs Cacheless (insert-cut env body q)
  unfolding insert-cut
  insert-Cacheless body q = AllActs-act _ tt

  deduct-Cacheless : (id : ℕ) (units : ℤ) → AllActs Cacheless (deduct-cut env id units)
  unfolding deduct-cut
  deduct-Cacheless id units = AllActs-act _ tt

  admit-Cacheless :
      (body : CallAuthorizeRequest) (q : Quote) → AllActs Cacheless (admit-cut env body q)
  unfolding admit-cut open-cut
  admit-Cacheless body q =
      search (acts_rules, session-Cacheless, insert-Cacheless, deduct-Cacheless) depth 15

  pub authorize_call-Obeys :
      distinct_ids customers ≡ true
      → (body : CallAuthorizeRequest) → Keeping env customers (authorize_call-cut env body)
  unfolding authorize_call-cut
  authorize_call-Obeys d body =
      Obeys-any _ _ (quote_call-Obeys d body)
        (λ q. Obeys-Cacheless env customers _ (admit-Cacheless body q))
