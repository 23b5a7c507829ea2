-- ===== src/Certificates/Issuing.antt =====
-- `issue_certificate` of certificates/services.py as its callers see it: what a returned
-- certificate means, what a refused request leaves behind, and what a repeated request does.
use govahee.Prelude.{
  ◌≡◌, refl, sym, ap, ◌∙◌, ◌⊎◌, inl, inr, true, false, not, List, ◌∷◌, Option, none, some, arith,
  truthy, ==_refl, if◌then◌else◌,
}
use govahee.Prelude.Text.{str_eq_refl}
use govahee.Exec.{
  Result, Error, ok, err, validation, roll_back, raise_if, guard-inv, roll_back-ok, ◌>>◌,
}
use govahee.Certificates.Models.{Certificate, State, by_key}
use govahee.Certificates.Orders.{Order}
use govahee.Certificates.Issue.{issue_unless, issued_before, issue_steps, issue_certificate}
use govahee.Certificates.Issued.{certificate_or, Open, Fresh, issue_new-Fresh}

-- the two checks on the organization
unfoldable pub Allowed : Order → Type 0
Allowed o = (o.organization.issuance_enabled ≡ true) × (o.organization.is_suspended ≡ false)

issue_steps-inv :
    (o : Order) (s : State) (c : Certificate) (s' : State)
    → issue_steps o s ≡ (ok c, s')
    → Allowed o × (issue_unless o (issued_before o s.certificates) s ≡ (ok c, s'))
unfolding issue_steps Allowed
issue_steps-inv o s c s' h =
    let next = issue_unless o (issued_before o s.certificates) in
    let (enabled, h1) =
      guard-inv _ _
        (raise_if o.organization.is_suspended (validation "The organization is suspended.") >> next)
        s c s' h in
    let (free, h2) = guard-inv _ _ next s c s' h1 in ((ground (arith, enabled), free), h2)

-- how a request was served: by the certificate of an earlier one, or by a new certificate
unfoldable pub Served : Order → State → Certificate → State → Type 0
Served o s c s' =
    ((issued_before o s.certificates ≡ some c) × (s' ≡ s))
    ⊎ ((issued_before o s.certificates ≡ none) × Open o.organization.id s.billing × Fresh o s c s')

issue_unless-Served :
    (o : Order) (found : Option Certificate) (s : State) (c : Certificate) (s' : State)
    → issued_before o s.certificates ≡ found
    → issue_unless o found s ≡ (ok c, s')
    → Served o s c s'
unfolding issue_unless Served certificate_or
issue_unless-Served o none s c s' e h =
    let (may, fresh) = issue_new-Fresh o s c s' h in inr (e, may, fresh)
issue_unless-Served o (some d) s c s' e h = inl (
  e ∙ ap (λ (r : Result Certificate × State). some (certificate_or d r.0)) h,
  ap (λ (r : Result Certificate × State). r.1) (sym h),
)

-- A certificate that `issue_certificate` returns was asked for by an organization that may issue
-- and is not suspended. It is the one that was issued before for the idempotency key of the
-- request, and then nothing is written; or no such one exists, the quota of the month was open, and
-- it is new: its status is issued, its number and its token were free, it is stored in front
-- of the certificates that there were, and the month's counter went up by one.
pub issue_certificate_sound :
    (o : Order) (s : State) (c : Certificate) (s' : State)
    → issue_certificate o s ≡ (ok c, s')
    → Allowed o × Served o s c s'
unfolding issue_certificate
issue_certificate_sound o s c s' h =
    let (allowed, h1) = issue_steps-inv o s c s' (roll_back-ok s (issue_steps o s) c s' h) in
    (allowed, issue_unless-Served o (issued_before o s.certificates) s c s' refl h1)

-- an exception takes every write back
pub rolled_back :
    (o : Order) (s : State) (e : Error)
    → (issue_certificate o s).0 ≡ err e
    → issue_certificate o s ≡ (err e, s)
unfolding issue_certificate
rolled_back o s e h = go (issue_steps o s) h
  where
    go : (r : Result Certificate × State) → (roll_back s r).0 ≡ err e → roll_back s r ≡ (err e, s)
    go (ok c, t) h = absurd (ground arith)
    go (err x, t) h = ap (λ (y : Result Certificate). (y, s)) h

blocked-Served :
    (o : Order) (s : State) (c : Certificate) (s' : State)
    → issued_before o s.certificates ≡ none
    → (¬ Allowed o) ⊎ (¬ Open o.organization.id s.billing)
    → Allowed o
    → Served o s c s'
    → ⊥
unfolding Served
blocked-Served o s c s' new (inl f) allowed served = f allowed
blocked-Served o s c s' new (inr f) allowed (inl (known, _)) = ground (arith, known, new)
blocked-Served o s c s' new (inr f) allowed (inr (_, may, _)) = f may

-- A request that was not served before is refused when the organization may not issue, is
-- suspended, or has used up the quota of the month; the whole database is then as it was.
pub issue_certificate_refused :
    (o : Order) (s : State)
    → issued_before o s.certificates ≡ none
    → (¬ Allowed o) ⊎ (¬ Open o.organization.id s.billing)
    → (e : Error) × (issue_certificate o s ≡ (err e, s))
issue_certificate_refused o s new blocked = go (issue_certificate o s).0 refl
  where
    go :
        (r : Result Certificate)
        → (issue_certificate o s).0 ≡ r
        → (e : Error) × (issue_certificate o s ≡ (err e, s))
    go (err e) h = (e, rolled_back o s e h)
    go (ok c) h =
        let t = (issue_certificate o s).1 in
        let (allowed, served) =
          issue_certificate_sound o s c t (ap (λ (r : Result Certificate). (r, t)) h) in
        absurd (blocked-Served o s c t new blocked allowed served)

-- a request that was served before is answered by the same certificate
issue_certificate_again :
    (o : Order) (s : State) (c : Certificate)
    → Allowed o
    → issued_before o s.certificates ≡ some c
    → issue_certificate o s ≡ (ok c, s)
unfolding issue_certificate issue_steps issue_unless Allowed
issue_certificate_again o s c allowed known =
    let disabled = validation "Issuing is disabled for this organization." in
    let suspended = validation "The organization is suspended." in
    let next = issue_unless o (issued_before o s.certificates) in
    ap
      (λ b.
        roll_back s (
          (raise_if (not b) disabled >> (raise_if o.organization.is_suspended suspended >> next))
            s))
      allowed.0
    ∙ ap (λ b. roll_back s ((raise_if b suspended >> next) s)) allowed.1
    ∙ ap (λ found. roll_back s (issue_unless o found s)) known

-- the search by key, in a request with the key and the organization of another
same_key :
    (o q : Order) (rows : List Certificate)
    → q.organization.id ≡ o.organization.id
    → q.idempotency_key ≡ o.idempotency_key
    → issued_before q rows ≡ issued_before o rows
same_key o q rows org key =
    ap (λ k. if truthy k then by_key q.organization.id k rows else none) key
    ∙ ap (λ n. if truthy o.idempotency_key then by_key n o.idempotency_key rows else none) org

issued_before-Served :
    (o : Order) (s s' : State) (c : Certificate)
    → Served o s c s'
    → truthy o.idempotency_key ≡ true
    → issued_before o s'.certificates ≡ some c
unfolding Served
issued_before-Served o s s' c (inl (known, same)) keyed =
    ap (λ (t : State). issued_before o t.certificates) same ∙ known
issued_before-Served o s s' c (inr (_, _, fresh)) keyed =
    let first : issued_before o (c ∷ s.certificates) ≡ some c =
      rw
        (
          keyed,
          fresh.organization,
          fresh.key,
          ==_refl o.organization.id,
          str_eq_refl o.idempotency_key,
        )
        refl in
    ap (λ rows. issued_before o rows) fresh.stored ∙ first

-- Issuing is idempotent: once a request with an idempotency key has been served, any later
-- request of the same organization with that key, whatever else it asks for, gets the same
-- certificate and writes nothing, as long as the organization may issue at all.
pub issue_certificate_idempotent :
    (o q : Order) (s : State) (c : Certificate) (s' : State)
    → issue_certificate o s ≡ (ok c, s')
    → truthy o.idempotency_key ≡ true
    → q.organization.id ≡ o.organization.id
    → q.idempotency_key ≡ o.idempotency_key
    → Allowed q
    → issue_certificate q s' ≡ (ok c, s')
issue_certificate_idempotent o q s c s' h keyed org key allowed =
    issue_certificate_again q s' c allowed (
      same_key o q s'.certificates org key
      ∙ issued_before-Served o s s' c (issue_certificate_sound o s c s' h).1 keyed)
