-- ===== src/Certificates/Status.antt =====
-- What the public page says of a certificate (certificates/models.py), whatever its row holds.
use govahee.Prelude.{◌≡◌, refl, ap, ◌↔◌, Bool, true, false, arith}
use govahee.Certificates.Dates.{Date}
use govahee.Certificates.Models.{
  Certificate, Status, PublicStatus, status, active, public_of, public_status, is_past,
}

is_active : PublicStatus → Bool
is_active active = true
is_active (status _) = false

not_active : (s : Status) → status s ≡ active → ⊥
unfolding is_active
not_active s h = let e = ap is_active h in cc

public_of_active_iff :
    (s : Status) (past : Bool)
    → (public_of s past ≡ active) ↔ ((s ≡ Status.issued) × (past ≡ false))
unfolding public_of
public_of_active_iff Status.draft past = (λ h. absurd (not_active _ h), λ h. ground (arith, h.0))
public_of_active_iff Status.issued true = (λ h. absurd (not_active _ h), λ h. cc)
public_of_active_iff Status.issued false = (λ h. (refl, refl), λ h. refl)
public_of_active_iff Status.expired past = (λ h. absurd (not_active _ h), λ h. ground (arith, h.0))
public_of_active_iff Status.revoked past = (λ h. absurd (not_active _ h), λ h. ground (arith, h.0))
public_of_active_iff Status.void past = (λ h. absurd (not_active _ h), λ h. ground (arith, h.0))

-- The public page calls a certificate active just when it is issued and its date of expiry, if
-- it has one, is not before today; the day of expiry itself still counts.
pub public_status_active_iff :
    (c : Certificate) (today : Date)
    → (public_status c today ≡ active)
      ↔ ((c.status ≡ Status.issued) × (is_past c.expiry_date today ≡ false))
unfolding public_status
public_status_active_iff c today = public_of_active_iff c.status (is_past c.expiry_date today)
