-- ===== src/Routing/Laws.antt =====
-- What the routing queries change.
use voip_platform.Base.{ℕ, Option, none, some}
use voip_platform.Base.Text.{Text}
use voip_platform.Core.{Env}
use voip_platform.Core.Keeps.{keeps_rules}
use voip_platform.Core.Quiet.{Quiet, reads_preorder}
use voip_platform.Models.{Consultant, ConsultantIvrNumber}
use voip_platform.Routing.{
  lookup_did, consultant_phone, mapped_consultant, get_consultant_for_did, lookup_known_user,
}

module _ {F : Type 0} (env : Env F) where
  pub lookup_did-Quiet : (d : Text) → Quiet (lookup_did env d)
  unfolding lookup_did
  lookup_did-Quiet d = search keeps_rules

  consultant_phone-Quiet : (c : Option Consultant) → Quiet (consultant_phone env c)
  unfolding consultant_phone
  consultant_phone-Quiet none = search keeps_rules
  consultant_phone-Quiet (some c) = search keeps_rules

  mapped-Quiet : (m : Option ConsultantIvrNumber) → Quiet (mapped_consultant env m)
  unfolding mapped_consultant
  mapped-Quiet none = search keeps_rules
  mapped-Quiet (some m) = search (keeps_rules, consultant_phone-Quiet)

  pub get_consultant_for_did-Quiet : (id : ℕ) → Quiet (get_consultant_for_did env id)
  unfolding get_consultant_for_did
  get_consultant_for_did-Quiet id = search (keeps_rules, mapped-Quiet)

  pub lookup_known_user-Quiet : (t : Text) → Quiet (lookup_known_user env t)
  unfolding lookup_known_user
  lookup_known_user-Quiet t = search keeps_rules
