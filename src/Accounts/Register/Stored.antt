-- ===== src/Accounts/Register/Stored.antt =====
-- What a registration (accounts/serializers.py) that returns has stored.
use mathlib.Core.Path.{subst}
use govahee.Prelude.{
  ℕ, ◌≡◌, refl, sym, ap, ◌∙◌, inl, inr, String, true, false, ◌&&◌, not, List, [], ◌∷◌, ◌++◌, arith,
  any, map, truthy, Bool-cases,
}
use govahee.Prelude.Text.{lower}
use govahee.Exec.{Result, ok, continue, continue-inv}
use govahee.Billing.State.{next_pk}
use govahee.Organizations.Models.{Organization}
use govahee.Organizations.Provision.{provision_organization}
use govahee.Accounts.Users.{User}
use govahee.Accounts.Login.{Tokens, issue_tokens_for_user}
use govahee.Accounts.Register.{
  Signup, RegisterData, same_text, email_exists, with_lower_email, validate, normalized, new_user,
  is_taken, create_user, owner_of, in_registry, create, register,
}

pub truthy-lower : (s : String) → truthy (lower s) ≡ truthy s
unfolding lower
truthy-lower String.[] = refl
truthy-lower (String.◌∷◌ c s) = refl

validate-inv :
    (d e : RegisterData) (s t : Signup)
    → truthy d.email ≡ true
    → validate d s ≡ (ok e, t)
    → (e ≡ with_lower_email d) × (t ≡ s) × (email_exists (lower d.email) s.site.users ≡ false)
unfolding validate
validate-inv d e s t given h =
    let low : truthy (lower d.email) ≡ true = truthy-lower d.email ∙ given in
    elim (Bool-cases (email_exists (lower d.email) s.site.users)) [
      | inl taken ↦ absurd (ground (arith, rw (given, low, taken) at h))
      | inr free ↦
          let h' = rw (given, low, free) at h in
          elim (Bool-cases
            (truthy d.phone && any (λ (u : User). same_text d.phone u.phone) s.site.users)) [
              | inl phone ↦ absurd (ground (arith, rw (phone) at h'))
              | inr open_ ↦
                  let h2 = rw (open_) at h' in (ground (arith, h2), ground (arith, h2), free)
            ]
    ]

module _ (normalize_email make_password : String → String) where
  -- a user that was made stands behind the others
  abbrev pub Appended : String → String → String → String → Signup → User → Signup → Type 0
  Appended email phone password full_name s u t =
      (u
        ≡ new_user normalize_email make_password email phone password full_name
            (next_pk (map (λ (v : User). v.id) s.site.users)))
      × (t.site ≡ record s.site { users = s.site.users ++ (u ∷ []) })

  create_user-Appended :
      (email phone password full_name : String) (s t : Signup) (u : User)
      → create_user normalize_email make_password email phone password full_name s ≡ (ok u, t)
      → Appended email phone password full_name s u t
  unfolding create_user
  create_user-Appended email phone password full_name s t u h =
      let pk = next_pk (map (λ (v : User). v.id) s.site.users) in
      let v = new_user normalize_email make_password email phone password full_name pk in
      elim (Bool-cases
        (not (truthy (normalized normalize_email make_password email)) && not (truthy phone))) [
          | inl blank ↦ absurd (ground (arith, rw (blank) at h))
          | inr some_ ↦ elim (Bool-cases (is_taken normalize_email make_password v s.site.users)) [
            | inl taken ↦ absurd (ground (arith, rw (some_, taken) at h))
            | inr free ↦
                let h' = rw (some_, free) at h in
                let same : v ≡ u = ground (arith, h') in
                (
                  sym same,
                  sym (ap (λ (r : Result User × Signup). r.1.site) h')
                      ∙ ap (λ (w : User). record s.site { users = s.site.users ++ (w ∷ []) }) same,
                )
          ]
        ]

  module _ (slugify canvas : String → String) (order : List ℕ → List ℕ) where
    create-Appended :
        (d : RegisterData) (s t : Signup) (u : User) (org : Organization)
        → create normalize_email make_password slugify canvas order d s ≡ (ok (u, org), t)
        → Appended d.email d.phone d.password d.full_name s u t
    unfolding create
    create-Appended d s t u org h =
        let made =
          create_user normalize_email make_password d.email d.phone d.password d.full_name s in
        let (v, first_, rest) = continue-inv made _ (u, org) t h in
        let own = λ (w : User).
          provision_organization slugify canvas order (owner_of normalize_email make_password w)
            d.organization_name in
        let (o, second, last) =
          continue-inv (in_registry normalize_email make_password (own v) made.1) _ (u, org) t
            rest in
        let same : v ≡ u = ground (arith, last) in
        let site : made.1.site ≡ t.site =
          ap (λ (r : Result (User × Organization) × Signup). r.1.site) last in
        let (built, users) =
          create_user-Appended d.email d.phone d.password d.full_name s made.1 v
            (ap (λ r. (r, made.1)) first_) in
        (
          sym same ∙ built,
          sym site
              ∙ users
              ∙ ap (λ (w : User). record s.site { users = s.site.users ++ (w ∷ []) }) same,
        )

    pub register-Appended :
        (d : RegisterData) (s t : Signup) (tokens : Tokens) (org : Organization)
        → truthy d.email ≡ true
        → register normalize_email make_password slugify canvas order d s ≡ (ok (tokens, org), t)
        → (email_exists (lower d.email) s.site.users ≡ false)
          × (u : User) × (tokens ≡ issue_tokens_for_user u)
          × Appended (lower d.email) d.phone d.password d.full_name s u t
    unfolding register
    register-Appended d s t tokens org given h =
        let step = create normalize_email make_password slugify canvas order in
        let whole = continue (validate d s) step in
        let (r, made, last) = continue-inv whole _ (tokens, org) t h in
        let (e, valid, rest) =
          continue-inv (validate d s) step r whole.1 (ap (λ x. (x, whole.1)) made) in
        let (same_e, same_s, free) =
          validate-inv d e s (validate d s).1 given (ap (λ x. (x, (validate d s).1)) valid) in
        let (built, site) = create-Appended (with_lower_email d) s whole.1 r.0 r.1 (
          subst (λ x. step x s ≡ (ok r, whole.1)) same_e
            (subst (λ x. step e x ≡ (ok r, whole.1)) same_s rest)) in
        let same_t : whole.1 ≡ t = ground (arith, last) in
        (free, r.0, ground (arith, last), (built, ap (λ (x : Signup). x.site) (sym same_t) ∙ site))
