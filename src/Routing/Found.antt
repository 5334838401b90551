-- ===== src/Routing/Found.antt =====
-- lookup_did and get_consultant_for_did: which rows they find.
use voip_platform.Base.{
  ℕ, ◌≡◌, refl, ap, ◌&&◌, ◌⊎◌, inl, inr, Bool-cases, Option, none, some, List, [], ◌∷◌, ◌==◌,
  nat_eq, arith, if◌then◌else◌,
}
use voip_platform.Base.Text.{Text, text_eq, lstrip}
use voip_platform.Core.{Env, Site, consultant_select, mapping_select}
use voip_platform.Core.Monad.{World, ok, select_one}
use voip_platform.Core.Ensures.{Ensures, >>=-ok}
use voip_platform.Models.{Db, Consultant, ConsultantIvrNumber, ConsultantPhoneNumber, SiteIvrNumber}
use voip_platform.Models.Query.{rows_where, limit_one}
use voip_platform.Routing.{
  lookup_did, get_consultant_for_did, mapped_consultant, consultant_phone, active_phone,
}

-- The first active number of the consultant.
unfoldable pub first_active : ℕ → List ConsultantPhoneNumber → Option ConsultantPhoneNumber
first_active id [] = none
first_active id (p ∷ l) =
    let rest = first_active id l in if p.consultant_id == id && p.is_active then some p else rest

abbrev pub OnlyDid : Text → Db → SiteIvrNumber → Type 0
OnlyDid inbound_did db did =
    rows_where (λ d. d.number == lstrip b'+' inbound_did) db.dids ≡ did ∷ []

-- One mapping is for the DID, and one consultant has the id that it names.
pub record IsMapped (did_id : ℕ) (db : Db) (consultant : Consultant) : Type 0 where
  pub mapping : ConsultantIvrNumber
  pub only_mapping : rows_where (λ m. m.site_ivr_number_id == did_id) db.mappings ≡ mapping ∷ []
  pub only_consultant :
      rows_where (λ c. c.id == mapping.consultant_id) db.consultants ≡ consultant ∷ []

abbrev rows_of : {A : Type 0} → Option A → List A
rows_of none = []
rows_of (some a) = a ∷ []

limit_one-first_active :
    (id : ℕ) (l : List ConsultantPhoneNumber)
    → (limit_one (rows_where (λ p. p.consultant_id == id && p.is_active) l) ≡ [])
        × (first_active id l ≡ none)
      ⊎ (p : ConsultantPhoneNumber) × (limit_one
            (rows_where (λ p. p.consultant_id == id && p.is_active) l)
          ≡ p ∷ [])
        × (first_active id l ≡ some p)
unfolding limit_one rows_where first_active
limit_one-first_active id [] = inl (refl, refl)
limit_one-first_active id (p ∷ l) = elim (Bool-cases (p.consultant_id == id && p.is_active)) [
  | inl here ↦ inr (p, ground arith, ground arith)
  | inr other ↦ rw other (limit_one-first_active id l)
]

module _ {F : Type 0} (env : Env F) where
  pub lookup_did-found :
      (inbound_did : Text)
      → Ensures (λ did w. OnlyDid inbound_did w.db did) (lookup_did env inbound_did)
  unfolding lookup_did
  lookup_did-found inbound_did = record { run = λ w did e. ground arith }

  selects :
      {A : Type 0} (s : Site) (f : Db → List A) (o : Option A) (w : World)
      → (select_one env s f w).0 ≡ ok o
      → ((select_one env s f w).1 ≡ w) × (f w.db ≡ rows_of o)
  selects s f o w e = ground arith

  active_phone-found :
      (consultant c : Consultant) (phone : Option ConsultantPhoneNumber) (w : World)
      → (active_phone env consultant w).0 ≡ ok (some c, phone)
      → (consultant ≡ c) × (phone ≡ first_active c.id w.db.phones)
  unfolding active_phone
  active_phone-found consultant c phone w e =
      ground (arith, limit_one-first_active consultant.id w.db.phones)

  consultant_phone-found :
      (o : Option Consultant) (c : Consultant) (phone : Option ConsultantPhoneNumber) (w : World)
      → (consultant_phone env o w).0 ≡ ok (some c, phone)
      → (o ≡ some c) × (phone ≡ first_active c.id w.db.phones)
  unfolding consultant_phone
  consultant_phone-found none c phone w e = cc
  consultant_phone-found (some consultant) c phone w e =
      let (same, first) = active_phone-found consultant c phone w e in (ap some same, first)

  mapped_consultant-found :
      (m : ConsultantIvrNumber) (c : Consultant) (phone : Option ConsultantPhoneNumber) (w : World)
      → (mapped_consultant env (some m) w).0 ≡ ok (some c, phone)
      → (rows_where (λ c. c.id == m.consultant_id) w.db.consultants ≡ c ∷ [])
        × (phone ≡ first_active c.id w.db.phones)
  unfolding mapped_consultant
  mapped_consultant-found m c phone w e =
      let (o, selected, rest) =
        >>=-ok
          (select_one env consultant_select
            (λ db. rows_where (λ c. c.id == m.consultant_id) db.consultants))
          (consultant_phone env) w e in
      let (same, rows) =
        selects consultant_select (λ db. rows_where (λ c. c.id == m.consultant_id) db.consultants) o
          w selected in
      let (found, first) = consultant_phone-found o c phone w (rw same at rest) in
      (rw found at rows, first)

  from_mapping :
      (id : ℕ) (o : Option ConsultantIvrNumber) (c : Consultant)
      (phone : Option ConsultantPhoneNumber) (w : World)
      → rows_where (λ m. m.site_ivr_number_id == id) w.db.mappings ≡ rows_of o
      → (mapped_consultant env o w).0 ≡ ok (some c, phone)
      → IsMapped id w.db c × (phone ≡ first_active c.id w.db.phones)
  unfolding mapped_consultant
  from_mapping id none c phone w rows e = cc
  from_mapping id (some m) c phone w rows e =
      let (only, first) = mapped_consultant-found m c phone w e in
      (record { mapping = m; only_mapping = rows; only_consultant = only }, first)

  pub get_consultant_for_did-found :
      (id : ℕ) (c : Consultant) (phone : Option ConsultantPhoneNumber) (w : World)
      → (get_consultant_for_did env id w).0 ≡ ok (some c, phone)
      → IsMapped id w.db c × (phone ≡ first_active c.id w.db.phones)
  unfolding get_consultant_for_did
  get_consultant_for_did-found id c phone w e =
      let (o, selected, rest) =
        >>=-ok
          (select_one env mapping_select
            (λ db. rows_where (λ m. m.site_ivr_number_id == id) db.mappings))
          (mapped_consultant env) w e in
      let (same, rows) =
        selects mapping_select (λ db. rows_where (λ m. m.site_ivr_number_id == id) db.mappings) o w
          selected in
      from_mapping id o c phone w rows (rw same at rest)
