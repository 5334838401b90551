-- ===== src/Interleaving/Cuts.antt =====
-- The rules that cut a handler at its awaits.
use voip_platform.Base.{ℕ, List, nat_eq}
use voip_platform.Base.Dict.{put}
use voip_platform.Base.Text.{Text, text_eq}
use voip_platform.Core.{Env, Site}
use voip_platform.Core.Coroutine.{
  Coroutine, finished, awaits, Coroutine-act, Coroutine-pure, Coroutine-raise, Coroutine-if,
  Coroutine-or_raise, Coroutine-bind,
}
use voip_platform.Core.Monad.{M, ok, at, select_one, from_redis, from_db, modify_redis}
use voip_platform.Interleaving.{Action, Handler}
use voip_platform.Models.{Db}
use voip_platform.Redis.{Redis, Session, AccountMeta, update_call, expire_call}
use voip_platform.Worker.Hangup.{attempt}

module _ {F : Type 0} (env : Env F) {B : Type 0} where
  unfoldable pub select_one-cut :
      (site : Site) (f : Db → List B) → Handler env (select_one env site f)
  select_one-cut site f = Coroutine-act (select_one env site f) (Action.select site f)

  unfoldable pub fetch-cut :
      (site : Site) (f : Redis → B) → Handler env (at env site (from_redis f))
  fetch-cut site f = Coroutine-act (at env site (from_redis f)) (Action.fetch site f)

  unfoldable pub query-cut : (site : Site) (f : Db → B) → Handler env (at env site (from_db f))
  query-cut site f = Coroutine-act (at env site (from_db f)) (Action.query site f)

module _ {F : Type 0} (env : Env F) where
  unfoldable pub on_call-cut :
      (site : Site) (u : Text) (f : Session → Session)
      → Handler env (at env site (modify_redis (update_call u f)))
  on_call-cut site u f = Coroutine-act _ (Action.on_call site u f)

  unfoldable pub expire-cut :
      (site : Site) (u : Text) (seconds : ℕ)
      → Handler env (at env site (modify_redis (expire_call u seconds)))
  expire-cut site u seconds = Coroutine-act _ (Action.expire site u seconds)

  unfoldable pub cache-cut :
      (site : Site) (token : Text) (meta : AccountMeta)
      → Handler env
          (at env site (modify_redis λ r. record r { accounts = put token meta r.accounts }))
  cache-cut site token meta = Coroutine-act _ (Action.cache site token meta)

  unfoldable pub attempt-cut : (m : M (Unit {0})) → Handler env m → Handler env (attempt m)
  attempt-cut _ (finished r) = finished (ok tt)
  attempt-cut _ (awaits m rest act cut) =
      awaits m (λ r. attempt (rest r)) act (λ r. attempt-cut (rest r) (cut r))

pub ruleset cut_rules = (
  Coroutine-pure, Coroutine-raise, Coroutine-if, Coroutine-or_raise, Coroutine-bind, select_one-cut,
  fetch-cut, query-cut, on_call-cut, expire-cut, cache-cut, attempt-cut,
)
