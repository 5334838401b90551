-- ===== src/Routing/Gateway.antt =====
-- get_gateway_from_consultant: the name that FreeSWITCH dials through.
use voip_platform.Base.{
  ◌≡◌, refl, true, false, Option, none, some, [], ◌∷◌, arith, ◌==◌, if◌then◌else◌, inl, inr,
  Bool-cases,
}
use voip_platform.Base.Dict.{get}
use voip_platform.Base.Text.{Text, text_eq, text_beq_iff, codes, isdigit, split_head, strip}
use voip_platform.Models.{Consultant}
use voip_platform.Routing.{
  gateway_of_slot, gateway_of_sequence, get_gateway_from_consultant, default_gateway,
}

not_slot :
    (slot first : Text) → isdigit slot ≡ true → isdigit first ≡ false → (slot == first) ≡ false
not_slot slot first d n = elim (Bool-cases (slot == first)) [
  | inl same ↦ let e : slot ≡ first = (text_beq_iff slot first).0 same in absurd (ground arith)
  | inr other ↦ other
]

default_not_digits : isdigit default_gateway ≡ false
unfolding isdigit
default_not_digits = refl

-- A slot that is a number names the default gateway, and any other is the gateway's own name.
gateway_of_slot_lem :
    (first : Text) → gateway_of_slot first ≡ (if isdigit first then default_gateway else first)
unfolding gateway_of_slot get isdigit
gateway_of_slot_lem first = elim (Bool-cases (isdigit first)) [
  | inl digits ↦ rw digits (ground arith)
  | inr name ↦ rw (
    name,
    not_slot (codes "1") first refl name,
    not_slot (codes "2") first refl name,
    not_slot (codes "3") first refl name,
  )
]

slot_not_digits : (first : Text) → isdigit (gateway_of_slot first) ≡ false
slot_not_digits first = elim (Bool-cases (isdigit first)) [
  | inl digits ↦ rw (gateway_of_slot_lem, digits) default_not_digits
  | inr name ↦ rw (gateway_of_slot_lem, name) name
]

unfoldable pub sequence_gateway : Option Text → Text
sequence_gateway none = default_gateway
sequence_gateway (some []) = default_gateway
sequence_gateway (some (a ∷ s)) =
    let first = strip (split_head b'|' (a ∷ s)) in if isdigit first then default_gateway else first

-- A consultant's gateway is the default one where there is no sequence or its first segment is a
-- number, and else the first segment as it stands, without blanks around it; it is never a number.
pub get_gateway_from_consultant_lem :
    (c : Consultant)
    → let gateway = get_gateway_from_consultant (some c) in
      (gateway ≡ sequence_gateway c.provider_sequence) × (isdigit gateway ≡ false)
unfolding get_gateway_from_consultant sequence_gateway
get_gateway_from_consultant_lem c = go c.provider_sequence
  where
    go :
        (o : Option Text)
        → (gateway_of_sequence o ≡ sequence_gateway o) × (isdigit (gateway_of_sequence o) ≡ false)
    go none = (refl, default_not_digits)
    go (some []) = (refl, default_not_digits)
    go (some (a ∷ s)) = (
      gateway_of_slot_lem (strip (split_head b'|' (a ∷ s))),
      slot_not_digits (strip (split_head b'|' (a ∷ s))),
    )
