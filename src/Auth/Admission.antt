-- ===== src/Auth/Admission.antt =====
-- Whom the authentication lets in.
use voip_platform.Base.{
  ◌≡◌, false, not, ◌&&◌, none, some, [], ◌∷◌, arith, nat_eq, ◌==◌, ◌⊎◌, inl, inr, Option-cases,
}
use voip_platform.Base.Dict.{get}
use voip_platform.Base.Text.{Text, text_eq}
use voip_platform.Auth.{get_customer_by_credit_code}
use voip_platform.Core.{Env}
use voip_platform.Core.Monad.{World, ok}
use voip_platform.Credit.{load_credit_to_redis}
use voip_platform.Models.{CreditsCustomer}
use voip_platform.Models.Query.{rows_where}
use voip_platform.Redis.{AccountMeta}

-- The customer is the only one whom the PIN names: by the id in the cache, of an entry that is
-- neither blocked nor deleted, or by the code of a customer that is not deleted.
abbrev pub IsNamed : Text → CreditsCustomer → World → Type 0
IsNamed credit_code c w =
    ((get credit_code w.redis.accounts ≡ none)
      × (rows_where (λ k. k.credit_code == credit_code && not k.is_deleted) w.db.customers
          ≡ c ∷ []))
    ⊎ ((meta : AccountMeta) × (get credit_code w.redis.accounts ≡ some meta)
        × (meta.is_blocked ≡ false)
        × (meta.is_deleted ≡ false)
        × (rows_where (λ k. k.id == meta.id) w.db.customers ≡ c ∷ []))

module _ {F : Type 0} (env : Env F) where
  -- A customer whom get_customer_by_credit_code returns is not blocked, and is the only one whom the
  -- PIN names: by the id of its cache entry, if there is one, which is neither blocked nor deleted,
  -- and else by the credit code among the customers that are not deleted.
  pub get_customer_by_credit_code-admits :
      (credit_code : Text) (w : World) {c : CreditsCustomer}
      → (get_customer_by_credit_code env credit_code w).0 ≡ ok c
      → IsNamed credit_code c w × (c.is_blocked ≡ false)
  unfolding get_customer_by_credit_code load_credit_to_redis
  get_customer_by_credit_code-admits credit_code w e =
      elim (Option-cases (get credit_code w.redis.accounts)) [
        | inl missing ↦ (inl (missing, ground arith), ground arith)
        | inr (meta, cached) ↦
            (inr (meta, cached, ground arith, ground arith, ground arith), ground arith)
      ]
