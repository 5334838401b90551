-- ===== src/Worker/Cdr/Status.antt =====
-- The status strings of the Sentinel reports.
use voip_platform.Base.{ℕ, ◌≡◌, ◌↔◌, arith}
use voip_platform.Base.Int.{ℤ, pos, ◌≤ℤ◌, ◌<ℤ◌}
use voip_platform.Base.Text.{Text, text_eq, codes}
use voip_platform.Worker.Cdr.{map_hangup_status}

-- The status is NORMAL exactly if the answered seconds reach the threshold, and SHORT CALL exactly
-- if they are above zero and below it, whatever the hangup cause.
pub map_hangup_status_answered :
    (hangup_cause : Text) (billsec : ℤ) (threshold : ℕ)
    → ((map_hangup_status hangup_cause billsec threshold ≡ codes "NORMAL")
        ↔ (pos threshold ≤ℤ billsec))
      × ((map_hangup_status hangup_cause billsec threshold ≡ codes "SHORT CALL")
          ↔ ((pos 0 <ℤ billsec) × (billsec <ℤ pos threshold)))
unfolding map_hangup_status
map_hangup_status_answered hangup_cause billsec threshold =
    ((λ h. ground arith, λ h. ground arith), (λ h. ground arith, λ h. ground arith))
