-- ===== src/Log.antt =====
-- The logs across the whole program, tracings (R-BILL-02) and statistics: what a later world may have
-- more than an earlier one.
pub mod Api
pub mod Worker
use voip_platform.Base.{
  ℕ, zero, suc, ◌+◌, ◌≡◌, refl, sym, ap, ◌∙◌, Bool, true, false, Option, none, some, List, [], ◌∷◌,
  ◌++◌, map, arith, ◌==◌, nat_eq, if◌then◌else◌,
}
use mathlib.Core.List.{append-nil, append_assoc, map-append}
use voip_platform.Base.Int.{ℤ}
use voip_platform.Base.Text.{Text}
use voip_platform.Core.{Env, Site}
use voip_platform.Core.Keeps.{IsPreorder, Keeps, keeps_rules}
use voip_platform.Core.Monad.{World, Result, M, modify_redis, modify_db, ◌>>=◌}
use voip_platform.Core.Quiet.{Reads, Quiet}
use voip_platform.Models.{Db, Statistics, Tracing}
use voip_platform.Models.Query.{update_where}
use voip_platform.Redis.{Redis}

abbrev pub row_ids : List Statistics → List ℕ
row_ids [] = []
row_ids (r ∷ rows) = r.id ∷ row_ids rows

-- The ids that the sequence gives out next.
unfoldable pub ids_from : ℕ → ℕ → List ℕ
ids_from next zero = []
ids_from next (suc n) = next ∷ ids_from (suc next) n

pub ids_from-+ : (next n m : ℕ) → ids_from next (n + m) ≡ ids_from next n ++ ids_from (next + n) m
unfolding ids_from
ids_from-+ next zero m =
    let same : next + 0 ≡ next = omega arith in
    let left : 0 + m ≡ m = omega arith in rw (same, left) refl
ids_from-+ next (suc n) m =
    let same : next + suc n ≡ suc next + n = omega arith in
    let left : suc n + m ≡ suc (n + m) = omega arith in
    rw (same, left) (ap (λ (l : List ℕ). next ∷ l) (ids_from-+ (suc next) n m))

-- The later world has the tracings of the earlier one with more behind them, and its rows with new
-- ones behind them, numbered by the sequence.
pub record Extends (w w' : World) : Type 0 where
  pub new_tracings : List Tracing
  pub tracings : w'.db.tracings ≡ w.db.tracings ++ new_tracings
  pub new_rows : ℕ
  pub rows :
      row_ids w'.db.statistics
      ≡ row_ids w.db.statistics ++ ids_from w.db.next_statistics_id new_rows
  pub next : w'.db.next_statistics_id ≡ w.db.next_statistics_id + new_rows

-- The tables as they were, or with the same tracings and row ids.
pub Extends-same :
    (w w' : World)
    → w'.db.tracings ≡ w.db.tracings
    → row_ids w'.db.statistics ≡ row_ids w.db.statistics
    → w'.db.next_statistics_id ≡ w.db.next_statistics_id
    → Extends w w'
unfolding ids_from
Extends-same w w' t r n = record {
  new_tracings = [];
  tracings = t ∙ sym (append-nil w.db.tracings);
  new_rows = 0;
  rows = r ∙ sym (append-nil (row_ids w.db.statistics));
  next = omega arith;
}

pub Extends-refl : (w : World) → Extends w w
Extends-refl w = Extends-same w w refl refl refl

pub Extends-trans : (u v w : World) → Extends u v → Extends v w → Extends u w
Extends-trans u v w p q = record {
  new_tracings = p.new_tracings ++ q.new_tracings;
  tracings = simp (q.tracings, p.tracings, append_assoc);
  new_rows = p.new_rows + q.new_rows;
  rows = simp (q.rows, p.rows, p.next, ids_from-+, append_assoc);
  next = omega arith;
}

instance abbrev pub extends_preorder : IsPreorder Extends
extends_preorder = record { same = Extends-refl; trans = Extends-trans }

pub row_ids-update :
    (p : Statistics → Bool) (f : Statistics → Statistics)
    → ((row : Statistics) → (f row).id ≡ row.id)
    → (rows : List Statistics) → row_ids (update_where p f rows) ≡ row_ids rows
unfolding update_where
row_ids-update p f same [] = refl
row_ids-update p f same (r ∷ rows) = ground (arith, same r, row_ids-update p f same rows)

pub row_ids-append : (xs ys : List Statistics) → row_ids (xs ++ ys) ≡ row_ids xs ++ row_ids ys
row_ids-append [] ys = refl
row_ids-append (x ∷ xs) ys = ap (λ (l : List ℕ). x.id ∷ l) (row_ids-append xs ys)

pub Extends-redis : (f : Redis → Redis) → Keeps Extends (modify_redis f)
Extends-redis f = record { run = λ w. Extends-same w (modify_redis f w).1 refl refl refl }

pub Extends-Quiet : {A : Type 0} (m : M A) → Quiet m → Keeps Extends m
Extends-Quiet m q = record {
  run = λ w.
      let reads = q.run w in
      Extends-same w (m w).1 (ap (λ (db : Db). db.tracings) reads.db)
        (ap (λ (db : Db). row_ids db.statistics) reads.db)
        (ap (λ (db : Db). db.next_statistics_id) reads.db);
}

pub ruleset log_rules = (keeps_rules, Extends-redis)
