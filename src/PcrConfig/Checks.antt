-- ===== src/PcrConfig/Checks.antt =====
-- internal/pcrconfig/config.go: what the steps of a check say of one that passes.
use go_prod_change_registry.Prelude.{
  Bool, true, false, Option, none, some, if◌then◌else◌, ◌≡◌, ◌⊎◌, refl, inl, inr,
}
use go_prod_change_registry.PcrConfig.{Settled, invalid, settled, ◌>>=◌, PcrError}
use go_prod_change_registry.PcrConfig.Resolve.{or_else}

pub bind-settled {κ ℓ} :
    {V : Type κ} {W : Type ℓ} (m : Settled V) (k : V → Settled W) (w : W)
    → (m >>= k) ≡ settled w
    → (v : V) × (m ≡ settled v) × (k v ≡ settled w)
bind-settled (invalid e) k w h = cc
bind-settled (settled v) k w h = (v, refl, h)

pub settled_inj {ℓ} : {V : Type ℓ} {a b : V} → settled a ≡ settled b → a ≡ b
settled_inj p = cc

pub if-settled {ℓ} :
    {V : Type ℓ} {x y : Settled V} {v : V} (b : Bool)
    → (if b then x else y) ≡ settled v
    → ((b ≡ true) × (x ≡ settled v)) ⊎ ((b ≡ false) × (y ≡ settled v))
if-settled true h = inl (refl, h)
if-settled false h = inr (refl, h)

pub or_else-settled {ℓ} :
    {V : Type ℓ} (e : PcrError) (o : Option V) (v : V) → or_else e o ≡ settled v → o ≡ some v
or_else-settled e none v h = cc
or_else-settled e (some w) v h = cc
