-- ===== src/Routing/Restated.antt =====
-- The routing queries where the status of the consultants, and the marks that they are blocked or
-- deleted, are others.
use mathlib.Core.List
use mathlib.Core.Option
use voip_platform.Base.{
  ℕ, ◌≡◌, refl, Bool, true, false, Option, none, some, List, [], ◌∷◌, ◌==◌, ◌&&◌, nat_eq, arith,
}
use voip_platform.Base.Text.{Text}
use voip_platform.Core.{Env, consultant_select, phone_select}
use voip_platform.Core.Blind.{
  Blind, Follows, Follows-then, Follows-bind, blind_rules, map_result, with_tables,
}
use voip_platform.Core.Monad.{World, pure, gate, select_one, scalar_one_or_none}
use voip_platform.Models.{Db, Consultant, ConsultantIvrNumber, ConsultantPhoneNumber}
use voip_platform.Models.Query.{rows_where, limit_one}
use voip_platform.Routing.{
  lookup_did, active_phone, consultant_phone, mapped_consultant, get_consultant_for_did,
  lookup_known_user,
}

module _ (status : Consultant → ℕ) (blocked deleted : Consultant → Bool) where
  abbrev pub restated : Consultant → Consultant
  restated c = record c { ivr_status = status c; is_blocked = blocked c; is_deleted = deleted c }

  abbrev pub all_restated : Db → Db
  all_restated db = record db { consultants = List.map restated db.consultants }

  abbrev pub found_restated :
      Option Consultant × Option ConsultantPhoneNumber
      → Option Consultant × Option ConsultantPhoneNumber
  found_restated (none, phone) = (none, phone)
  found_restated (some c, phone) = (some (restated c), phone)

  rows_where-restated :
      (id : ℕ) (l : List Consultant)
      → rows_where (λ c. c.id == id) (List.map restated l)
        ≡ List.map restated (rows_where (λ c. c.id == id) l)
  unfolding rows_where
  rows_where-restated id [] = refl
  rows_where-restated id (c ∷ l) = ground (arith, rows_where-restated id l)

  scalar-restated :
      (l : List Consultant)
      → scalar_one_or_none (List.map restated l)
        ≡ map_result (Option.map restated) (scalar_one_or_none l)
  scalar-restated [] = refl
  scalar-restated (c ∷ []) = refl
  scalar-restated (c ∷ d ∷ l) = refl

  module _ {F : Type 0} (env : Env F) where
    pub lookup_did-Blind : (d : Text) → Blind all_restated (lookup_did env d)
    unfolding lookup_did
    lookup_did-Blind d = search blind_rules

    pub lookup_known_user-Blind : (t : Text) → Blind all_restated (lookup_known_user env t)
    unfolding lookup_known_user
    lookup_known_user-Blind t = search blind_rules

    selected :
        (down : Bool) (id : ℕ) (w : World)
        → gate down
            (λ v. (scalar_one_or_none (rows_where (λ c. c.id == id) v.db.consultants), v))
            (with_tables all_restated w)
          ≡ let (r, w') =
              gate down
                (λ v. (scalar_one_or_none (rows_where (λ c. c.id == id) v.db.consultants), v))
                w in
            (map_result (Option.map restated) r, with_tables all_restated w')
    selected true id w = refl
    selected false id w = rw (rows_where-restated id w.db.consultants, scalar-restated) refl

    phone-Follows :
        (o : Option Consultant)
        → Follows all_restated found_restated
            (consultant_phone env o)
            (consultant_phone env (Option.map restated o))
    unfolding consultant_phone active_phone
    phone-Follows none = record { run = λ w. refl }
    phone-Follows (some c) =
        Follows-then found_restated
          (select_one env phone_select
            (λ db. limit_one (rows_where (λ p. p.consultant_id == c.id && p.is_active) db.phones)))
          (λ phone. pure (some c, phone)) (λ phone. pure (some (restated c), phone))
          (search blind_rules) (λ phone. record { run = λ w. refl })

    mapped-Follows :
        (m : Option ConsultantIvrNumber)
        → Follows all_restated found_restated (mapped_consultant env m) (mapped_consultant env m)
    unfolding mapped_consultant
    mapped-Follows none = record { run = λ w. refl }
    mapped-Follows (some m) =
        Follows-bind (Option.map restated) found_restated
          (select_one env consultant_select
            (λ db. rows_where (λ c. c.id == m.consultant_id) db.consultants))
          (select_one env consultant_select
            (λ db. rows_where (λ c. c.id == m.consultant_id) db.consultants))
          (consultant_phone env) (consultant_phone env)
          (record { run = selected (env.fails consultant_select) m.consultant_id }) phone-Follows

    pub get_consultant_for_did-Follows :
        (id : ℕ)
        → Follows all_restated found_restated
            (get_consultant_for_did env id)
            (get_consultant_for_did env id)
    unfolding get_consultant_for_did
    get_consultant_for_did-Follows id = search (Follows-then, mapped-Follows, blind_rules)
