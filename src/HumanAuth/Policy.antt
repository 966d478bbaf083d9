-- ===== src/HumanAuth/Policy.antt =====
-- internal/humanauth: whom the policy lets in.
use mathlib.Core.Path.{subst}
use mathlib.Core.List.{Memᴰ}
use go_prod_change_registry.Prelude.{
  String, Bool, true, false, List, [], ◌∷◌, if◌then◌else◌, ◌==◌, ◌≡◌, ◌⊎◌, refl, sym, ap, inl, inr,
  arith, eq→path, Bool-cases,
}
use go_prod_change_registry.Text.{◌+++◌, trim_space, split}
use go_prod_change_registry.Model.{Time}
use go_prod_change_registry.Http.{Request, header}
use go_prod_change_registry.Middleware.Human.{Principal, namespaced_subject}
use go_prod_change_registry.HumanAuth.{
  ProviderOptions, AuthResult, admitted, GroupResult, no_group, group, contains_text,
  subject_allowed, authorize, via, by_group,
}
use go_prod_change_registry.HumanAuth.Beyond.{
  valid_beyond_email, first_allowed, allowed_group, beyond_principal, email_of,
  authenticate_request,
}

contains_text-Mem : (s : String) (texts : List String) → contains_text s texts ≡ true → Memᴰ s texts
unfolding contains_text
contains_text-Mem s [] h = cc
contains_text-Mem s (t ∷ texts) h = elim (Bool-cases (t == s)) [
  | inl e ↦ Memᴰ.head (sym (eq→path t s e))
  | inr e ↦ Memᴰ.tail (contains_text-Mem s texts (ground arith))
]

if-auth :
    (b : Bool) (x y : AuthResult) (p : Principal)
    → (if b then x else y) ≡ admitted p
    → ((b ≡ true) × (x ≡ admitted p)) ⊎ ((b ≡ false) × (y ≡ admitted p))
if-auth true x y p h = inl (refl, h)
if-auth false x y p h = inr (refl, h)

admitted_inj : {p q : Principal} → admitted p ≡ admitted q → p ≡ q
admitted_inj e = cc

-- Anyone, a listed person, or a member of the group that was found.
abbrev pub AdmittedBy : ProviderOptions → Principal → GroupResult → Type 0
AdmittedBy opts p groups =
    (opts.allow_any ≡ true)
    ⊎ Memᴰ (namespaced_subject p) opts.allowed_subjects
    ⊎ ((g : String) × (groups ≡ group g))

by_group-admitted :
    (kind : String) (asked p : Principal) (groups : GroupResult)
    → by_group kind asked groups ≡ admitted p
    → (how : String) × (g : String) × (via how asked ≡ p) × (groups ≡ group g)
by_group-admitted kind asked p (no_group e) h = cc
by_group-admitted kind asked p (group g) h = (_, g, admitted_inj h, refl)

pub authorize-AdmittedBy :
    (opts : ProviderOptions) (kind : String) (asked p : Principal) (groups : GroupResult)
    → authorize opts kind asked groups ≡ admitted p
    → (how : String) × (via how asked ≡ p) × AdmittedBy opts asked groups
unfolding authorize subject_allowed
authorize-AdmittedBy opts kind asked p groups h = elim (if-auth opts.allow_any _ _ p h) [
  | inl (any, e) ↦ ("any", admitted_inj e, inl any)
  | inr (_, rest) ↦
      elim (if-auth (subject_allowed (namespaced_subject asked) opts.allowed_subjects) _ _ p rest) [
        | inl (listed, e) ↦ (
          "subject",
          admitted_inj e,
          inr (inl (contains_text-Mem (namespaced_subject asked) opts.allowed_subjects listed)),
        )
        | inr (_, grouped) ↦
            let (how, g, same, found) = by_group-admitted kind asked p groups grouped in
            (how, same, inr (inr (g, found)))
      ]
]

if-group :
    (b : Bool) (x y : GroupResult) (g : String)
    → (if b then x else y) ≡ group g
    → ((b ≡ true) × (x ≡ group g)) ⊎ ((b ≡ false) × (y ≡ group g))
if-group true x y g h = inl (refl, h)
if-group false x y g h = inr (refl, h)

group_inj : {g h : String} → group g ≡ group h → g ≡ h
group_inj e = cc

-- A group that is allowed and stands among the parts, with spaces around it at most.
abbrev pub ListedGroup : List String → List String → String → Type 0
ListedGroup allowed parts g =
    Memᴰ g allowed × ((part : String) × Memᴰ part parts × (trim_space part ≡ g))

first_allowed-ListedGroup :
    (allowed parts : List String) (g : String)
    → first_allowed allowed parts ≡ group g
    → ListedGroup allowed parts g
unfolding first_allowed
first_allowed-ListedGroup allowed [] g h = cc
first_allowed-ListedGroup allowed (part ∷ parts) g h =
    elim (if-group (contains_text (trim_space part) allowed) _ _ g h) [
      | inl (listed, e) ↦
          let same : trim_space part ≡ g = group_inj e in
          (
            subst (λ (x : String). Memᴰ x allowed) same
                (contains_text-Mem (trim_space part) allowed listed),
            (part, Memᴰ.head refl, same),
          )
      | inr (_, rest) ↦
          let (inside, (found, m, same)) = first_allowed-ListedGroup allowed parts g rest in
          (inside, (found, Memᴰ.tail m, same))
    ]

-- Whom the trusted proxy's headers admit: the address of the email header, when it is well formed
-- and the policy lets in anyone, lists the address, or allows a group of the groups header.
pub authenticate_request-admitted :
    (opts : ProviderOptions) (now : Time) (r : Request) (p : Principal)
    → authenticate_request opts now r ≡ admitted p
    → (p.provider ≡ "beyond")
      × (p.subject ≡ email_of r)
      × (valid_beyond_email (email_of r) ≡ true)
      × ((opts.allow_any ≡ true)
          ⊎ Memᴰ (namespaced_subject p) opts.allowed_subjects
          ⊎ ((g : String) × ListedGroup opts.allowed_orgs
                (split b'|' (header r "X-Beyond-Groups"))
                g))
unfolding authenticate_request allowed_group namespaced_subject
authenticate_request-admitted opts now r p h =
    elim (if-auth (valid_beyond_email (email_of r)) _ _ p h) [
      | inr (_, e) ↦ cc
      | inl (formed, e) ↦
          let (how, same, by) =
            authorize-AdmittedBy opts "beyond_group:"
              (beyond_principal now (email_of r) (header r "X-Beyond-Name")) p
              (allowed_group opts.allowed_orgs (header r "X-Beyond-Groups")) e in
          (
            ap (λ q. q.provider) (sym same),
            ap (λ q. q.subject) (sym same),
            formed,
            subst
                (λ (q : Principal).
                  (opts.allow_any ≡ true)
                  ⊎ Memᴰ (namespaced_subject q) opts.allowed_subjects
                  ⊎ ((g : String) × ListedGroup opts.allowed_orgs
                        (split b'|' (header r "X-Beyond-Groups")) g))
                same (listed by),
          )
    ]
  where
    listed :
        AdmittedBy opts
          (beyond_principal now (email_of r) (header r "X-Beyond-Name"))
          (allowed_group opts.allowed_orgs (header r "X-Beyond-Groups"))
        → (opts.allow_any ≡ true)
          ⊎ Memᴰ ("beyond" +++ ":" +++ email_of r) opts.allowed_subjects
          ⊎ ((g : String) × ListedGroup opts.allowed_orgs
                (split b'|' (header r "X-Beyond-Groups"))
                g)
    listed (inl any) = inl any
    listed (inr (inl named)) = inr (inl named)
    listed (inr (inr (g, found))) =
        inr (inr (g, first_allowed-ListedGroup opts.allowed_orgs _ g found))
