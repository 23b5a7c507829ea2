-- ===== src/Certificates/Api/Tenants.antt =====
-- The certificates of other organizations under the views of an organization
-- (certificates/views.py and certificates/api_v1.py).
use mathlib.Core.Path.{subst}
use govahee.Prelude.{
  ℕ, ◌≡◌, refl, sym, ◌∙◌, inl, inr, String, true, List, [], ◌∷◌, Option, some, arith, ==_refl,
  str_eq, find, keep, any, All, Bool-cases, Option-cases,
}
use govahee.Exec.{Exec, Result, ok, err, continue}
use govahee.Certificates.Models.{Certificate, State, is_revoked, is_draft}
use govahee.Certificates.Orders.{Actor}
use govahee.Certificates.Issue.{add_event, log_certificate, dispatch}
use govahee.Certificates.Revoke.{
  with_revocation, save_revocation, revoke_issued, revoke_steps, revoke_certificate,
}
use govahee.Certificates.Api.Rows.{
  IsKeyed, others, Touched, kept, wrote, Touched-others, Touched-any,
}
use govahee.Certificates.Api.{
  Office, Reply, is_certificate, is_chosen, with_certificate, revoke_found, revoke, revoke_each,
  resend_each, send_if, downloaded, download, bulk_actions, in_certs,
}

revoke_certificate-Touched :
    (org : ℕ) (c : Certificate) (actor : Actor) (reason : String) (s : State)
    → any (is_certificate org c.id) s.certificates ≡ true
    → Touched org s.certificates (revoke_certificate c actor reason s).1.certificates
unfolding revoke_certificate revoke_steps revoke_issued save_revocation add_event log_certificate
    dispatch
revoke_certificate-Touched org c actor reason s mine = elim (Bool-cases (is_revoked c.status)) [
  | inl done ↦ rw (done) (kept refl)
  | inr open_ ↦ elim (Bool-cases (is_draft c.status)) [
    | inl early ↦ rw (open_, early) (kept refl)
    | inr final ↦
        rw (open_, final)
          (wrote c.id (with_revocation s.billing.now reason) (λ d. (refl, refl)) refl mine)
  ]
]

-- the certificates of the other organizations, and the keys
abbrev Isolated : ℕ → List Certificate → List Certificate → Type 0
Isolated org rows rows' = (others org rows' ≡ others org rows) × IsKeyed rows'

find-any :
    (org pk : ℕ) (rows : List Certificate) (c : Certificate)
    → find (is_certificate org pk) rows ≡ some c
    → any (is_certificate org c.id) rows ≡ true
find-any org pk [] c h = absurd (ground arith)
find-any org pk (d ∷ ds) c h = elim (Bool-cases (is_certificate org pk d)) [
  | inl this ↦
      let same : d ≡ c = ground (arith, rw (this) at h) in
      rw (sym same) (ground (arith, this, ==_refl d.id))
  | inr other ↦ ground (arith, find-any org pk ds c (rw (other) at h))
]

-- a step on a certificate of the organization
with_certificate-Isolated :
    (org pk : ℕ) (step : Certificate → Exec Office Reply) (s : Office)
    → IsKeyed s.certs.certificates
    → ((c : Certificate)
        → any (is_certificate org c.id) s.certs.certificates ≡ true
        → Touched org s.certs.certificates (step c s).1.certs.certificates)
    → Isolated org s.certs.certificates (with_certificate org pk step s).1.certs.certificates
unfolding with_certificate
with_certificate-Isolated org pk step s keyed touches =
    elim (Option-cases (find (is_certificate org pk) s.certs.certificates)) [
      | inl absent ↦ rw (absent, with_certificate) (refl, keyed)
      | inr (c, found) ↦
          rw (found, with_certificate)
            (Touched-others org s.certs.certificates (step c s).1.certs.certificates keyed
              (touches c (find-any org pk s.certs.certificates c found)))
    ]

-- the state of a step that is followed by an answer
answered_same :
    (r : Result Certificate × Office) (f : Certificate → Reply)
    → (continue r (λ c t. (ok (f c), t))).1 ≡ r.1
answered_same (ok c, t) f = refl
answered_same (err e, t) f = refl

revoke-Isolated :
    (org : ℕ) (actor : Actor) (pk : ℕ) (reason : String) (s : Office)
    → IsKeyed s.certs.certificates
    → Isolated org s.certs.certificates (revoke org actor pk reason s).1.certs.certificates
unfolding revoke revoke_found
revoke-Isolated org actor pk reason s keyed =
    with_certificate-Isolated org pk (revoke_found actor reason) s keyed λ c mine.
      subst (λ (t : Office). Touched org s.certs.certificates t.certs.certificates)
        (sym (answered_same (in_certs (revoke_certificate c actor reason) s) Reply.certificate))
        (revoke_certificate-Touched org c actor reason s.certs mine)

download-Isolated :
    (org : ℕ) (user : Option ℕ) (pk : ℕ) (s : Office)
    → IsKeyed s.certs.certificates
    → Isolated org s.certs.certificates (download org user pk s).1.certs.certificates
unfolding download add_event
download-Isolated org user pk s keyed =
    with_certificate-Isolated org pk _ s keyed
      λ c mine. wrote c.id downloaded (λ d. (refl, refl)) refl mine

-- the certificates of a list are rows of the organization
abbrev Own : ℕ → List Certificate → List Certificate → Type 0
Own org rows cs = All (λ (c : Certificate). any (is_certificate org c.id) rows ≡ true) cs

Own-Touched :
    (org : ℕ) (rows rows' cs : List Certificate)
    → Touched org rows rows'
    → Own org rows cs
    → Own org rows' cs
Own-Touched org rows rows' [] t h = tt
Own-Touched org rows rows' (c ∷ cs) t h =
    (Touched-any org c.id rows rows' t ∙ h.0, Own-Touched org rows rows' cs t h.1)

Own-cons :
    (org : ℕ) (d : Certificate) (rows cs : List Certificate)
    → Own org rows cs
    → Own org (d ∷ rows) cs
Own-cons org d rows [] h = tt
Own-cons org d rows (c ∷ cs) h = (ground (arith, h.0), Own-cons org d rows cs h.1)

Own-keep :
    (org : ℕ) (ids : List ℕ) (rows : List Certificate)
    → Own org rows (keep (is_chosen org ids) rows)
Own-keep org ids [] = tt
Own-keep org ids (c ∷ cs) = elim (Bool-cases (is_chosen org ids c)) [
  | inl chosen ↦
      rw (chosen) (ground (arith, chosen, ==_refl c.id), Own-cons org c cs _ (Own-keep org ids cs))
  | inr left ↦ rw (left) (Own-cons org c cs _ (Own-keep org ids cs))
]

revoke_rest :
    (org : ℕ) (actor : Actor) (rows cs : List Certificate) (r : Result Certificate × Office)
    → Isolated org rows r.1.certs.certificates
    → ((s : Office)
        → Isolated org rows s.certs.certificates
        → Own org s.certs.certificates cs
        → Isolated org rows (revoke_each actor cs s).1.certs.certificates)
    → Own org r.1.certs.certificates cs
    → Isolated org rows (continue r (λ d. revoke_each actor cs)).1.certs.certificates
revoke_rest org actor rows cs (ok c, t) h rest own = rest t h own
revoke_rest org actor rows cs (err e, t) h rest own = h

revoke_each-Isolated :
    (org : ℕ) (actor : Actor) (rows cs : List Certificate) (s : Office)
    → Isolated org rows s.certs.certificates
    → Own org s.certs.certificates cs
    → Isolated org rows (revoke_each actor cs s).1.certs.certificates
unfolding revoke_each
revoke_each-Isolated org actor rows [] s h own = h
revoke_each-Isolated org actor rows (c ∷ cs) s h own =
    let rows1 = (revoke_certificate c actor "" s.certs).1.certificates in
    let touched : Touched org s.certs.certificates rows1 =
      revoke_certificate-Touched org c actor "" s.certs own.0 in
    let (same, keyed) = Touched-others org s.certs.certificates rows1 h.1 touched in
    revoke_rest org actor rows cs (in_certs (revoke_certificate c actor "") s) (same ∙ h.0, keyed)
      (revoke_each-Isolated org actor rows cs)
      (Own-Touched org s.certs.certificates rows1 cs touched own.1)

resend_each-certs : (cs : List Certificate) (s : Office) → (resend_each cs s).0.certs ≡ s.certs
unfolding resend_each send_if
resend_each-certs [] s = refl
resend_each-certs (c ∷ cs) s = resend_each-certs cs (send_if true c s).1 ∙ ground arith

counted_same :
    (r : Result (Unit {0}) × Office) (f : Office → Reply)
    → (continue r (λ u t. (ok (f t), t))).1 ≡ r.1
counted_same (ok u, t) f = refl
counted_same (err e, t) f = refl

bulk_actions-Isolated :
    (org : ℕ) (actor : Actor) (ids : List ℕ) (action : String) (s : Office)
    → IsKeyed s.certs.certificates
    → Isolated org s.certs.certificates (bulk_actions org actor ids action s).1.certs.certificates
unfolding bulk_actions
bulk_actions-Isolated org actor ids action s keyed =
    let rows = s.certs.certificates in
    let chosen = keep (is_chosen org ids) rows in
    elim (Bool-cases (str_eq action "revoke")) [
      | inl r ↦ rw (r) (
          subst (λ (t : Office). Isolated org rows t.certs.certificates)
            (sym (counted_same (revoke_each actor chosen s) _))
            (revoke_each-Isolated org actor rows chosen s (refl, keyed) (Own-keep org ids rows)))
      | inr n ↦ elim (Bool-cases (str_eq action "resend")) [
        | inl again ↦
            rw (n, again)
              (subst (λ (t : State). Isolated org rows t.certificates)
                (sym (resend_each-certs chosen s)) (refl, keyed))
        | inr m ↦ elim (Bool-cases (str_eq action "export")) [
          | inl e ↦ rw (n, m, e) (refl, keyed)
          | inr k ↦ rw (n, m, k) (refl, keyed)
        ]
      ]
    ]

-- Organizations are isolated: whatever certificate a member or an API key of an organization asks
-- to revoke or to download, or whichever ones and whatever action it asks for in bulk, and whether
-- the request succeeds or raises half way, the certificates of all other organizations stay as
-- they were; and keys stay unique.
pub views_isolated :
    (org : ℕ) (actor : Actor) (user : Option ℕ) (pk : ℕ) (ids : List ℕ) (action reason : String)
    (s : Office)
    → IsKeyed s.certs.certificates
    → let rows = s.certs.certificates in
      let revoked = (revoke org actor pk reason s).1.certs.certificates in
      let loaded = (download org user pk s).1.certs.certificates in
      let acted = (bulk_actions org actor ids action s).1.certs.certificates in
      ((others org revoked ≡ others org rows) × IsKeyed revoked)
      × ((others org loaded ≡ others org rows) × IsKeyed loaded)
      × ((others org acted ≡ others org rows) × IsKeyed acted)
views_isolated org actor user pk ids action reason s keyed = (
  revoke-Isolated org actor pk reason s keyed,
  download-Isolated org user pk s keyed,
  bulk_actions-Isolated org actor ids action s keyed,
)
