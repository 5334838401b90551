-- ===== src/Interleaving/Plain.antt =====
-- The handlers that neither fill the account cache nor insert a row, and leave a session's
-- statistics_id alone.
use voip_platform.Base.{◌≡◌, List}
use voip_platform.Base.Text.{Text}
use voip_platform.Core.{Env, Site}
use voip_platform.Core.Coroutine.{finished, awaits, Coroutine-act}
use voip_platform.Core.Coroutine.AllActs.{Each, AllActs, AllActs-act, acts_rules}
use voip_platform.Core.Monad.{M}
use voip_platform.Interleaving.{Action, Handler}
use voip_platform.Interleaving.Cuts.{select_one-cut, fetch-cut, query-cut, on_call-cut, attempt-cut}
use voip_platform.Models.{Db}
use voip_platform.Redis.{Redis, Session}

module _ {F : Type 0} {env : Env F} where
  abbrev pub Plain : (B : Type 0) (m : M B) → Action env B m → Type 0
  Plain B m (Action.cache site token meta) = ⊥
  Plain B m (Action.insert body q) = ⊥
  Plain B m (Action.on_call site u f) = (s : Session) → (f s).statistics_id ≡ s.statistics_id
  Plain B m _ = Unit

  abbrev pub IsPlain : {A : Type 0} {m : M A} → Handler env m → Type 0
  IsPlain c = AllActs Plain c

  pub IsPlain-act :
      {B : Type 0} {m : M B} (act : Action env B m) → Plain B m act → IsPlain (Coroutine-act m act)
  IsPlain-act act p = AllActs-act act p

  Each-attempt :
      {m : M (Unit {0})} (c : Handler env m) → Each Plain c → Each Plain (attempt-cut env m c)
  unfolding attempt-cut
  Each-attempt (finished r) h = tt
  Each-attempt (awaits m rest act cut) h = (h.0, λ r. Each-attempt (cut r) (h.1 r))

  pub IsPlain-attempt :
      {m : M (Unit {0})} (c : Handler env m) → IsPlain c → IsPlain (attempt-cut env m c)
  IsPlain-attempt c h = record { each = Each-attempt c h.each }

  pub IsPlain-select :
      {B : Type 0} (site : Site) (f : Db → List B) → IsPlain (select_one-cut env site f)
  unfolding select_one-cut
  IsPlain-select site f = IsPlain-act (Action.select site f) tt

  pub IsPlain-fetch : {B : Type 0} (site : Site) (f : Redis → B) → IsPlain (fetch-cut env site f)
  unfolding fetch-cut
  IsPlain-fetch site f = IsPlain-act (Action.fetch site f) tt

  pub IsPlain-query : {B : Type 0} (site : Site) (f : Db → B) → IsPlain (query-cut env site f)
  unfolding query-cut
  IsPlain-query site f = IsPlain-act (Action.query site f) tt

  pub IsPlain-on_call :
      (site : Site) (u : Text) (f : Session → Session)
      → ((s : Session) → (f s).statistics_id ≡ s.statistics_id)
      → IsPlain (on_call-cut env site u f)
  unfolding on_call-cut
  IsPlain-on_call site u f same = IsPlain-act (Action.on_call site u f) same

pub ruleset plain_rules =
    (acts_rules, IsPlain-attempt, IsPlain-select, IsPlain-fetch, IsPlain-query)
