-- ===== src/Interleaving/Api/Naming.antt =====
-- The API's handlers name only the row that the handler inserts.
use voip_platform.Base.{ℕ, ◌≡◌, refl, inl, inr, ◌∷◌, Option, some, nat_eq}
use voip_platform.Base.Int.{ℤ}
use voip_platform.Base.Text.{Text, text_eq}
use voip_platform.Call.{Quote}
use voip_platform.Core.{Env, session_expire}
use voip_platform.Core.Coroutine.{bind_result, Coroutine-act, Coroutine-bind}
use voip_platform.Core.Monad.{M, Result, ok, err}
use voip_platform.Decimal.{Decimal}
use voip_platform.Interleaving.{Handler}
use voip_platform.Interleaving.Cuts.{on_call-cut, expire-cut}
use voip_platform.Models.{Consultant, ConsultantPhoneNumber, SiteIvrNumber}
use voip_platform.Schemas.{CallAuthorizeRequest}
use voip_platform.Interleaving.Api.{
  insert-cut, customer-cut, quote_customer-cut, quote_call-cut, session-cut, open-cut, admit-cut,
  authorize_call-cut,
}
use voip_platform.Interleaving.Api.Plain.{
  load_credit-IsPlain, deduct-IsPlain, lookup_did-IsPlain, consultant-IsPlain, known_user-IsPlain,
  check_cached-IsPlain, select_customer-IsPlain, country_vat-IsPlain, fx_rate_of-IsPlain,
  balance-IsPlain,
}
use voip_platform.Interleaving.Naming.{
  Inserted, with_row, Names, IsSafe, IsSafeAfter, IsSafeAfter-bind, safe_rules,
}

module _ {F : Type 0} (env : Env F) where
  customer-IsSafe : (code : Text) → IsSafe (customer-cut env code)
  unfolding customer-cut
  customer-IsSafe code =
      search (safe_rules, check_cached-IsPlain, select_customer-IsPlain, load_credit-IsPlain) depth
        25

  quote_customer-IsSafe :
      (body : CallAuthorizeRequest) (did : SiteIvrNumber)
      (found : Option Consultant × Option ConsultantPhoneNumber)
      → IsSafe (quote_customer-cut env body did found)
  unfolding quote_customer-cut
  quote_customer-IsSafe body did found =
      search
        (
          safe_rules, known_user-IsPlain, customer-IsSafe, country_vat-IsPlain, fx_rate_of-IsPlain,
          balance-IsPlain,
        )
        depth 25

  quote_call-IsSafe : (body : CallAuthorizeRequest) → IsSafe (quote_call-cut env body)
  unfolding quote_call-cut
  quote_call-IsSafe body =
      search (safe_rules, lookup_did-IsPlain, consultant-IsPlain, quote_customer-IsSafe) depth 10

  renewed :
      (u : Text) (known : Inserted) (r : Result (Unit {0}))
      → Names known (bind_result r _ (λ _. expire-cut env session_expire u 7200))
  unfolding bind_result expire-cut Coroutine-act
  renewed u known (ok x) = (tt, λ r. tt)
  renewed u known (err e) = tt

  session-IsSafe :
      (id : ℕ) (u : Text) (a : ℕ) (m : Decimal) (g : Text) (t n : ℕ) (c : Option ℕ) (b : Decimal)
      (i : ℤ)
      → IsSafeAfter id u (session-cut env u a m g t n c (some id) b i)
  unfolding session-cut Coroutine-bind on_call-cut expire-cut Coroutine-act
  session-IsSafe id u a m g t n c b i = record {
    names = λ known there. (λ s j h. let e : id ≡ j = cc in inr (rw e at there), renewed u known);
  }

  inserted :
      {B : Type 0} (u : Text) (f : ℕ → M B) (known : Inserted) (k : (id : ℕ) → Handler env (f id))
      → ((id : ℕ) → IsSafeAfter id u (k id))
      → (r : Result ℕ) → Names (with_row u r known) (bind_result r f k)
  unfolding bind_result
  inserted u f known k h (ok id) = (h id).names ((id, u) ∷ known) (inl (refl, refl))
  inserted u f known k h (err e) = tt

  insert-IsSafe :
      {B : Type 0} (body : CallAuthorizeRequest) (q : Quote) (f : ℕ → M B)
      (k : (id : ℕ) → Handler env (f id))
      → ((id : ℕ) → IsSafeAfter id body.call_uuid (k id))
      → IsSafe (Coroutine-bind _ f (insert-cut env body q) k)
  unfolding insert-cut Coroutine-bind Coroutine-act
  insert-IsSafe body q f k h = record { names = λ known. (tt, inserted body.call_uuid f known k h) }

  open-IsSafe : (body : CallAuthorizeRequest) (q : Quote) → IsSafe (open-cut env body q)
  unfolding open-cut
  open-IsSafe body q =
      search (safe_rules, deduct-IsPlain, insert-IsSafe, IsSafeAfter-bind, session-IsSafe) depth 12

  admit-IsSafe : (body : CallAuthorizeRequest) (q : Quote) → IsSafe (admit-cut env body q)
  unfolding admit-cut
  admit-IsSafe body q = search (safe_rules, open-IsSafe) depth 10

  pub authorize_call-IsSafe : (body : CallAuthorizeRequest) → IsSafe (authorize_call-cut env body)
  unfolding authorize_call-cut
  authorize_call-IsSafe body = search (safe_rules, quote_call-IsSafe, admit-IsSafe) depth 10
