-- ===== src/Dialplan/Pin.antt =====
-- freeswitch/lua/dialplan/auth.lua: the PIN that a caller enters.
use voip_platform.Base.{
  ℕ, zero, suc, ◌≤◌, ◌≡◌, refl, Bool, true, false, Option, none, some, List, [], ◌∷◌, ◌++◌, ◌==◌,
  nat_eq, arith, ltb, length, ◌&&◌, if◌then◌else◌, ◌⊎◌, inl, inr, Bool-cases, ap,
}
use voip_platform.Base.Text.{Text, codes, isdigit}
use voip_platform.Dialplan.{Command, ask_pin, playback, sleep}

-- `utils.is_numeric(entered) and #entered == config.pin_length`
unfoldable pub is_pin : ℕ → Option Text → Bool
unfolding isdigit
is_pin pin_length none = false
is_pin pin_length (some entered) = isdigit entered && (length entered == pin_length)

-- `voip_pin` after the attempts so far: what the caller enters at each attempt, or nothing.
abbrev pub next_entry : List (Option Text) → Option Text × List (Option Text)
next_entry [] = (none, [])
next_entry (entered ∷ rest) = (entered, rest)

-- The loop, with the attempts that are left: the token, and what FreeSWITCH has been told.
unfoldable pub collect_pin : ℕ → ℕ → List (Option Text) → Option Text × List Command
unfolding is_pin
collect_pin pin_length zero entries = (none, [])
collect_pin pin_length (suc left) entries =
    let (entered, later) = next_entry entries in
    let (token, commands) = collect_pin pin_length left later in
    let again = playback (codes "creditcodewrong.mp3") ∷ sleep 500 ∷ [] in
    if is_pin pin_length entered
    then (entered, ask_pin ∷ [])
    else (token, ask_pin ∷ ((if ltb 0 left then again else []) ++ commands))

abbrev pub pins_asked : List Command → ℕ
pins_asked [] = 0
pins_asked (ask_pin ∷ commands) = suc (pins_asked commands)
pins_asked (_ ∷ commands) = pins_asked commands

-- pin
pub collect_pin_lem :
    (pin_length attempts : ℕ) (entries : List (Option Text))
    → let (token, commands) = collect_pin pin_length attempts entries in
      (pins_asked commands ≤ attempts)
      × (((token ≡ none) × (pins_asked commands ≡ attempts)) ⊎ (is_pin pin_length token ≡ true))
unfolding collect_pin
collect_pin_lem pin_length zero entries = (omega arith, inl (refl, refl))
collect_pin_lem pin_length (suc left) entries =
    let (entered, later) = next_entry entries in
    let (few, ends) = collect_pin_lem pin_length left later in
    elim (Bool-cases (is_pin pin_length entered)) [
      | inl good ↦ rw good (omega arith, inr good)
      | inr bad ↦ elim (Bool-cases (ltb 0 left)) [
        | inl some_left ↦ rw (bad, some_left) (omega (arith, few), one_more ends)
        | inr none_left ↦ rw (bad, none_left) (omega (arith, few), one_more ends)
      ]
    ]
  where
    one_more :
        {token : Option Text} {n : ℕ}
        → ((token ≡ none) × (n ≡ left)) ⊎ (is_pin pin_length token ≡ true)
        → ((token ≡ none) × (suc n ≡ suc left)) ⊎ (is_pin pin_length token ≡ true)
    one_more (inl (no_token, all)) = inl (no_token, ap suc all)
    one_more (inr good) = inr good
