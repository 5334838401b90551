-- ===== src/Interleaving/Coherent.antt =====
-- The account cache over any interleaving of the handlers, and the answers that it gives.
pub mod Uncached
use voip_platform.Base.{
  ℕ, ◌≡◌, refl, sym, ◌∙◌, ap, Bool, true, false, not, ◌&&◌, Option, none, some, List, [], ◌∷◌, ◌++◌,
  ◌==◌, arith, nat_eq, inl, inr, Option-cases, Bool-cases, if◌then◌else◌,
}
use voip_platform.Base.Dict.{get, get-remove}
use voip_platform.Base.Text.{Text, text_eq}
use voip_platform.Auth.{get_customer_by_credit_code, check_cached, select_customer, admit_customer}
use voip_platform.Core.{Env, account_get, account_not_found, customer_select}
use voip_platform.Core.Coroutine.{finished, awaits}
use voip_platform.Core.Coroutine.Obeys.{Obeys, Steps}
use voip_platform.Core.Monad.{World, M, Result, ok, err, at, from_redis, lift, or_raise, ◌>>=◌}
use voip_platform.Credit.{load_credit_to_redis}
use voip_platform.Interleaving.{Action, Handler}
use voip_platform.Interleaving.Api.Caching.{Keeping, authorize_call-Obeys}
use voip_platform.Interleaving.Api.Plain.{tick-IsPlain}
use voip_platform.Interleaving.Caching.{
  IsOwner, IsCoherent, AllCoherent, Undisturbed-coherent, Obeys-plain,
}
use voip_platform.Interleaving.Coherent.Uncached.{uncached, coherent_uncached}
use voip_platform.Interleaving.Schedule.{
  Running, running, Pool, Start, Move, Moves, start, resume, session_expiring, account_expiring,
  stay, move,
}
use voip_platform.Interleaving.Worker.Plain.{dispatch-IsPlain, reconcile-IsPlain}
use voip_platform.Models.{CreditsCustomer}
use voip_platform.Models.Keys.{distinct_ids, where_sound}
use voip_platform.Models.Query.{rows_where}
use voip_platform.Redis.{AccountMeta}
use voip_platform.System.{expire_account}

expired :
    (customers : List CreditsCustomer) (token : Text) (w : World)
    → AllCoherent customers w
    → AllCoherent customers (expire_account token w)
expired customers token w (same, coherent) =
    (same, λ code meta held. coherent code meta (grind (arith, get-remove)))

module _ {F : Type 0} (customers : List CreditsCustomer) where
  -- Each handler keeps the cache coherent in what it still has to do.
  abbrev AllKeeping : List (Running F) → Type 0
  AllKeeping [] = Unit
  AllKeeping (h ∷ hs) = Keeping h.env customers h.cut × AllKeeping hs

  AllKeeping-there :
      (before after : List (Running F)) {h : Running F}
      → AllKeeping (before ++ (h ∷ after))
      → Keeping h.env customers h.cut
  AllKeeping-there [] after all = all.0
  AllKeeping-there (b ∷ before) after all = AllKeeping-there before after (all.1)

  AllKeeping-step :
      (before after : List (Running F)) (h : Running F) {h' : Running F}
      → Keeping h'.env customers h'.cut
      → AllKeeping (before ++ (h ∷ after))
      → AllKeeping (before ++ (h' ∷ after))
  AllKeeping-step [] after h k all = (k, all.1)
  AllKeeping-step (b ∷ before) after h k all = (all.0, AllKeeping-step before after h k (all.1))

  started :
      distinct_ids customers ≡ true → {h : Running F} → Start h → Keeping h.env customers h.cut
  started d (Start.authorizing env body) = authorize_call-Obeys env customers d body
  started d (Start.ticking env body) =
      Obeys-plain env customers _
        (tick-IsPlain env body.call_uuid body.account_id body.elapsed_seconds)
  started d (Start.handling env event) = Obeys-plain env customers _ (dispatch-IsPlain env event)
  started d (Start.recovering env output) =
      Obeys-plain env customers _ (reconcile-IsPlain env output)

  abbrev IsKept : Pool F → Type 0
  IsKept p = AllCoherent customers p.world × AllKeeping p.handlers

  Move-IsKept : distinct_ids customers ≡ true → {p q : Pool F} → Move p q → IsKept p → IsKept q
  Move-IsKept d (start w hs h) (coherent, all) = (coherent, (started d h, all))
  Move-IsKept d (resume env w before after m rest act cut) (coherent, all) =
      let (now, next) = (AllKeeping-there before after all).steps w coherent in
      (now, AllKeeping-step before after _ (record { steps = next }) all)
  Move-IsKept d (session_expiring u w hs) (coherent, all) = (coherent, all)
  Move-IsKept d (account_expiring token w hs) (coherent, all) =
      (expired customers token w coherent, all)

  Moves-IsKept : distinct_ids customers ≡ true → {p q : Pool F} → Moves p q → IsKept p → IsKept q
  Moves-IsKept d (stay p) k = k
  Moves-IsKept d (move first rest) k = Moves-IsKept d rest (Move-IsKept d first k)

-- From an empty account cache, with no handler at work and no two customers with one id, after any
-- interleaving of the handlers at their awaits and of expiries: get_customer_by_credit_code gives
-- for any PIN the customer or the error that it would give with no cache at all, whichever of its
-- calls fail.
pub Moves-uncached :
    {F : Type 0} (w : World) {q : Pool F}
    → Moves (record { world = w; handlers = [] }) q
    → w.redis.accounts ≡ []
    → distinct_ids w.db.customers ≡ true
    → (env : Env F) (code : Text)
    → (get_customer_by_credit_code env code q.world).0
      ≡ (get_customer_by_credit_code env code (uncached q.world)).0
unfolding get
Moves-uncached {F} w {q} moves empty d env code =
    let start_coherent : AllCoherent w.db.customers w =
      (refl, λ c meta held. absurd (ground (arith, rw empty at held))) in
    let (same, coherent) = (Moves-IsKept w.db.customers d moves (start_coherent, tt)).0 in
    coherent_uncached env code q.world (λ meta held. rw (sym same) at (coherent code meta held))
