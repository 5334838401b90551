-- ===== src/Interleaving/Coherent/Uncached.antt =====
-- The authentication on a coherent cache and with no cache.
use voip_platform.Base.{
  ℕ, ◌≡◌, refl, sym, ◌∙◌, ap, false, not, ◌&&◌, Option, none, some, [], ◌==◌, arith, nat_eq, inl,
  inr, Option-cases, Bool-cases,
}
use voip_platform.Base.Dict.{get}
use voip_platform.Base.Text.{Text, text_eq}
use voip_platform.Auth.{get_customer_by_credit_code, check_cached, select_customer, admit_customer}
use voip_platform.Core.{Env, account_get, account_not_found, customer_select}
use voip_platform.Core.Monad.{World, M, Result, ok, err, at, from_redis, lift, or_raise, ◌>>=◌}
use voip_platform.Core.Ensures.{run_bind}
use voip_platform.Credit.{load_credit_to_redis}
use voip_platform.Interleaving.Caching.{IsOwner, IsCoherent}
use voip_platform.Models.{CreditsCustomer}
use voip_platform.Models.Keys.{where_sound}
use voip_platform.Redis.{AccountMeta}

-- With no cache.
abbrev pub uncached : World → World
uncached w = record w { redis = record w.redis { accounts = [] } }

module _ {F : Type 0} (env : Env F) (code : Text) where
  abbrev admit : Option CreditsCustomer → M CreditsCustomer
  admit found = or_raise found account_not_found >>= admit_customer env code

  -- Once the query has answered.
  answered_then :
      (cached : Option AccountMeta) (id : Option ℕ) (r : Result (Option CreditsCustomer))
      (w : World)
      → env.fails account_get ≡ false
      → get code w.redis.accounts ≡ cached
      → check_cached env cached w ≡ (ok id, w)
      → select_customer env code id w ≡ (r, w)
      → get_customer_by_credit_code env code w ≡ (lift r >>= admit) w
  unfolding get_customer_by_credit_code
  answered_then cached id r w up held check select =
      let fetched : at env account_get (from_redis (λ r. get code r.accounts)) w ≡ (ok cached, w) =
        rw (up, held) refl in
      let look_up = λ (account_id : Option ℕ). select_customer env code account_id >>= admit in
      let test = λ (entry : Option AccountMeta). check_cached env entry >>= look_up in
      run_bind (at env account_get (from_redis (λ r. get code r.accounts))) test fetched
      ∙ run_bind (check_cached env cached) look_up check
      ∙ run_bind (select_customer env code id) admit select

  admit_uncached :
      (c : CreditsCustomer) (w : World)
      → (admit_customer env code c w).0 ≡ (admit_customer env code c (uncached w)).0
  unfolding load_credit_to_redis
  admit_uncached c w = ground arith

  -- The rest looks at the tables alone.
  rest_uncached :
      (r : Result (Option CreditsCustomer)) (w : World)
      → ((lift r >>= admit) w).0 ≡ ((lift r >>= admit) (uncached w)).0
  rest_uncached (ok none) w = refl
  rest_uncached (ok (some c)) w = admit_uncached c w
  rest_uncached (err e) w = refl

  -- Where the cache does not answer by itself, and leads to what the PIN leads to.
  same_uncached :
      (cached : Option AccountMeta) (id : Option ℕ) (r : Result (Option CreditsCustomer))
      (w : World)
      → get code w.redis.accounts ≡ cached
      → check_cached env cached w ≡ (ok id, w)
      → select_customer env code id w ≡ (r, w)
      → select_customer env code none (uncached w) ≡ (r, uncached w)
      → (get_customer_by_credit_code env code w).0
        ≡ (get_customer_by_credit_code env code (uncached w)).0
  unfolding get_customer_by_credit_code check_cached get
  same_uncached cached id r w held check select plain = elim (Bool-cases (env.fails account_get)) [
    | inl down ↦ rw (down, ◌>>=◌) refl
    | inr up ↦
        ap (λ (p : Result CreditsCustomer × World). p.0)
          (answered_then cached id r w up held check select)
        ∙ rest_uncached r w
        ∙ sym (
            ap (λ (p : Result CreditsCustomer × World). p.0)
              (answered_then none none r (uncached w) up refl refl plain))
  ]

  -- The query by PIN does not depend on the cache, and changes nothing.
  by_pin : World → Result (Option CreditsCustomer)
  by_pin w = (select_customer env code none w).0

  by_pin_lem : (w : World) → select_customer env code none w ≡ (by_pin w, w)
  unfolding by_pin select_customer
  by_pin_lem w = ground arith

  by_pin-uncached :
      (w : World) → select_customer env code none (uncached w) ≡ (by_pin w, uncached w)
  unfolding by_pin select_customer
  by_pin-uncached w = ground arith

  -- By the id of its owner the query finds what it finds by PIN.
  by_owner :
      (w : World) (c : CreditsCustomer)
      → IsOwner w.db.customers code c
      → select_customer env code (some c.id) w ≡ (by_pin w, w)
  unfolding by_pin select_customer
  by_owner w c (by_code, by_id) = elim (Bool-cases (env.fails customer_select)) [
    | inl down ↦ rw (down, by_pin) refl
    | inr up ↦ rw (up, by_pin, by_code, by_id) refl
  ]

  pub coherent_uncached :
      (w : World)
      → ((meta : AccountMeta)
          → get code w.redis.accounts ≡ some meta
          → IsCoherent w.db.customers code meta)
      → (get_customer_by_credit_code env code w).0
        ≡ (get_customer_by_credit_code env code (uncached w)).0
  unfolding check_cached
  coherent_uncached w coherent = elim (Option-cases (get code w.redis.accounts)) [
    | inl missing ↦
        same_uncached none none (by_pin w) w missing refl (by_pin_lem w) (by_pin-uncached w)
    | inr (meta, held) ↦
        let (c, same, free, owner) = coherent meta held in
        let kept : c.is_deleted ≡ false = ground (
          arith,
          where_sound (λ k. k.credit_code == code && not k.is_deleted) c w.db.customers (owner.0),
        ) in
        same_uncached (some meta) (some c.id) (by_pin w) w held (rw (same, free, kept) refl)
          (by_owner w c owner) (by_pin-uncached w)
  ]
