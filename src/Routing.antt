-- ===== src/Routing.antt =====
-- app/services/routing_service.py: the DID, its consultant, the known caller and the gateway.
pub mod Found
pub mod Gateway
pub mod Laws
pub mod Restated
use voip_platform.Base.{
  ℕ, Bool, true, false, not, ◌&&◌, Option, none, some, List, [], ◌∷◌, ◌==◌, nat_eq, if◌then◌else◌,
}
use voip_platform.Base.Dict.{Dict, get}
use voip_platform.Base.Text.{Text, text_eq, codes, lstrip, strip, split_head, isdigit, is_nonempty}
use voip_platform.Core.{
  Env, did_not_found, did_select, mapping_select, consultant_select, phone_select,
  known_user_select,
}
use voip_platform.Core.Monad.{World, M, pure, or_raise, at, select_one, ◌>>=◌}
use voip_platform.Models.{
  Consultant, ConsultantIvrNumber, ConsultantPhoneNumber, SiteIvrNumber, IvrKnownUser,
}
use voip_platform.Models.Query.{rows_where, limit_one}

-- `_PROVIDER_SLOT_MAP` and `_DEFAULT_GATEWAY`
abbrev pub default_gateway : Text
default_gateway = codes "voxbone-outbound"

abbrev pub provider_slot_map : Dict Text Text
provider_slot_map =
    (codes "1", codes "voxbone-outbound")
    ∷ (codes "2", codes "voxbone-outbound")
    ∷ (codes "3", codes "voxbone-outbound")
    ∷ []

abbrev get_or : Option Text → Text → Text
get_or none d = d
get_or (some t) d = t

unfoldable pub gateway_of_slot : Text → Text
gateway_of_slot first =
    get_or (get first provider_slot_map) (if not (isdigit first) then first else default_gateway)

gateway_of_sequence : Option Text → Text
unfolding gateway_of_slot
gateway_of_sequence none = default_gateway
gateway_of_sequence (some sequence) =
    if is_nonempty sequence
    then gateway_of_slot (strip (split_head b'|' sequence))
    else default_gateway

unfoldable pub get_gateway_from_consultant : Option Consultant → Text
unfolding gateway_of_sequence
get_gateway_from_consultant none = default_gateway
get_gateway_from_consultant (some consultant) = gateway_of_sequence consultant.provider_sequence

module _ {F : Type 0} (env : Env F) where
  unfoldable pub lookup_did : Text → M SiteIvrNumber
  lookup_did inbound_did = do
    let normalized = lstrip b'+' inbound_did
    did ← select_one env did_select (λ db. rows_where (λ d. d.number == normalized) db.dids)
    or_raise did did_not_found

  unfoldable pub active_phone : Consultant → M (Option Consultant × Option ConsultantPhoneNumber)
  active_phone consultant = do
    phone ← select_one env phone_select (λ db.
        limit_one (rows_where (λ p. p.consultant_id == consultant.id && p.is_active) db.phones))
    pure (some consultant, phone)

  unfoldable pub consultant_phone :
      Option Consultant → M (Option Consultant × Option ConsultantPhoneNumber)
  unfolding active_phone
  consultant_phone none = pure (none, none)
  consultant_phone (some consultant) = active_phone consultant

  unfoldable pub mapped_consultant :
      Option ConsultantIvrNumber → M (Option Consultant × Option ConsultantPhoneNumber)
  unfolding consultant_phone
  mapped_consultant none = pure (none, none)
  mapped_consultant (some mapping) = do
    consultant ←
        select_one env consultant_select
          (λ db. rows_where (λ c. c.id == mapping.consultant_id) db.consultants)
    consultant_phone consultant

  unfoldable pub get_consultant_for_did : ℕ → M (Option Consultant × Option ConsultantPhoneNumber)
  unfolding mapped_consultant
  get_consultant_for_did site_ivr_number_id = do
    mapping ←
        select_one env mapping_select
          (λ db. rows_where (λ m. m.site_ivr_number_id == site_ivr_number_id) db.mappings)
    mapped_consultant mapping

  unfoldable pub lookup_known_user : Text → M (Option IvrKnownUser)
  lookup_known_user src_number =
      let normalized = lstrip b'+' src_number in
      select_one env known_user_select
        (λ db. rows_where (λ u. u.caller_id == normalized) db.known_users)
