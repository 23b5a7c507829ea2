-- ===== src/Certificates/Revoke.antt =====
-- `revoke_certificate` of certificates/services.py, which runs under `transaction.atomic`, and
-- what it means for the public status. `c` is the object that the view has read.
use govahee.Prelude.{ℕ, String, ◌≡◌, refl, false, [], ◌∷◌, some, if◌then◌else◌, ◌==◌, update}
use govahee.Prelude.Text.{decimal}
use govahee.Prelude.Keyed.{find-update_self}
use govahee.Exec.{Exec, ok, err, validation, pure, modify, atomic, ◌>>◌}
use govahee.Certificates.Dates.{Date}
use govahee.Certificates.Models.{
  Certificate, Status, EventKind, State, status, public_status, is_revoked, is_draft, public_of,
  certificate_by_pk,
}
use govahee.Certificates.Orders.{Actor}
use govahee.Certificates.Issue.{add_event, log_certificate, dispatch}

-- the object with the columns that are saved
abbrev pub with_revocation : ℕ → String → Certificate → Certificate
with_revocation now reason c = record c {
  status = Status.revoked;
  revoked_at = some now;
  revoke_reason = reason;
}

-- `update_fields=["status", "revoked_at", "revoke_reason", "updated_at"]`
unfoldable pub save_revocation : ℕ → ℕ → String → Exec State (Unit {0})
save_revocation pk now reason = modify λ s. record s {
  certificates = update (λ d. d.id == pk) (with_revocation now reason) s.certificates;
}

unfoldable pub revoke_issued : Certificate → Actor → String → Exec State Certificate
revoke_issued c actor reason s =
    (do
      save_revocation c.id s.billing.now reason
      add_event c.id EventKind.revoked actor.pk (("reason", reason) ∷ [])
      log_certificate actor "certificate.revoked" c.id c.organization (("reason", reason) ∷ [])
      dispatch c.organization "certificate.revoked" (
          ("id", decimal c.id)
          ∷ ("certificate_number", c.certificate_number)
          ∷ ("reason", reason)
          ∷ [])
      pure (with_revocation s.billing.now reason c))
      s

unfoldable pub revoke_steps : Certificate → Actor → String → Exec State Certificate
revoke_steps c actor reason s =
    if is_revoked c.status
    then (ok c, s)
    else if is_draft c.status
    then (err (validation "A draft cannot be revoked."), s)
    else revoke_issued c actor reason s

-- `revoke_certificate`
unfoldable pub revoke_certificate : Certificate → Actor → String → Exec State Certificate
revoke_certificate c actor reason = atomic (revoke_steps c actor reason)

-- A certificate that is neither a draft nor revoked is revoked, and stays so: the stored row and
-- the returned object are revoked with the reason; one event, one entry of the audit log and one
-- dispatch are added, which name the certificate, the actor and the reason; revoking it again for
-- any other reason changes nothing, and its public status is revoked on every date.
pub revoke_certificate_final :
    (c : Certificate) (actor : Actor) (reason : String) (s : State)
    → certificate_by_pk c.id s.certificates ≡ some c
    → is_revoked c.status ≡ false
    → is_draft c.status ≡ false
    → (d : Certificate) × (t : State) × (revoke_certificate c actor reason s ≡ (ok d, t))
      × (d ≡ record c {
        status = Status.revoked;
        revoked_at = some s.billing.now;
        revoke_reason = reason;
      })
      × (certificate_by_pk c.id t.certificates ≡ some d)
      × (t.events
          ≡ record {
            certificate = c.id;
            kind = EventKind.revoked;
            actor = actor.pk;
            metadata = ("reason", reason) ∷ [];
          }
            ∷ s.events)
      × (t.billing.audit
          ≡ record {
            organization = some c.organization;
            actor = actor.pk;
            actor_label = actor.label;
            action = "certificate.revoked";
            entity = "certificate";
            entity_id = decimal c.id;
            metadata = ("reason", reason) ∷ [];
          }
            ∷ s.billing.audit)
      × (t.outbox
          ≡ record {
            organization = c.organization;
            event = "certificate.revoked";
            payload =
                ("id", decimal c.id)
                ∷ ("certificate_number", c.certificate_number)
                ∷ ("reason", reason)
                ∷ [];
          }
            ∷ s.outbox)
      × ((again : Actor) (other : String) → revoke_certificate d again other t ≡ (ok d, t))
      × ((today : Date) → public_status d today ≡ status Status.revoked)
unfolding revoke_certificate revoke_steps revoke_issued save_revocation add_event log_certificate
    dispatch public_status public_of
revoke_certificate_final c actor reason s stored live final = (
  with_revocation s.billing.now reason c,
  (revoke_issued c actor reason s).1,
  rw (live, final) refl,
  refl,
  find-update_self (λ d. d.id) (with_revocation s.billing.now reason) (λ d. refl) c.id
      s.certificates c stored,
  refl,
  refl,
  refl,
  λ again other. refl,
  λ today. refl,
)
