-- ===== src/PcrConfig/IsOrigin.antt =====
-- internal/pcrconfig/config.go: what an origin is that parses.
use mathlib.Core.Path.{subst}
use go_prod_change_registry.Prelude.{
  String, Bool, true, false, not, Option, none, some, ◌==◌, ◌≡◌, ◌≢◌, ◌⊎◌, refl, arith, inl, inr,
  Bool-cases, eq→path, ne_of_eq-false,
}
use go_prod_change_registry.Text.{trim_space, equal_fold}
use go_prod_change_registry.PcrConfig.{settled, Origin, System}
use go_prod_change_registry.PcrConfig.ParseOrigin.{
  parse_origin, check_origin, is_allowed, has_no_host, is_more, is_loopback, without_path,
}
use go_prod_change_registry.PcrConfig.Checks.{settled_inj, if-settled}

module _ (system : System) where
  -- The origin of a URL: a host, nothing but scheme and host, and https, or http to this machine
  -- where it is allowed.
  abbrev pub IsOrigin : Bool → Origin → Type 0
  IsOrigin allow_http o =
      ((o.parts.scheme ≡ "https")
        ⊎ ((allow_http ≡ true)
            × (o.parts.scheme ≡ "http")
            × ((equal_fold o.parts.host_name "localhost" ≡ true)
                ⊎ (system.is_loopback_ip o.parts.host_name ≡ true))))
      × (o.parts.host ≢ "")
      × (o.parts.host_name ≢ "")
      × (o.opaque ≡ "")
      × (o.parts.has_user ≡ false)
      × (o.parts.raw_query ≡ "")
      × (o.parts.fragment ≡ "")
      × (o.parts.path ≡ "")

  is_allowed-scheme :
      (allow_http : Bool) (u : Origin)
      → is_allowed system allow_http u ≡ true
      → (u.parts.scheme ≡ "https")
        ⊎ ((allow_http ≡ true)
            × (u.parts.scheme ≡ "http")
            × ((equal_fold u.parts.host_name "localhost" ≡ true)
                ⊎ (system.is_loopback_ip u.parts.host_name ≡ true)))
  unfolding is_loopback
  is_allowed-scheme allow_http u h = elim (Bool-cases (u.parts.scheme == "https")) [
    | inl secure ↦ inl (eq→path u.parts.scheme "https" secure)
    | inr plain ↦ inr (
      ground arith,
      eq→path u.parts.scheme "http" (ground arith),
      elim (Bool-cases (equal_fold u.parts.host_name "localhost")) [
        | inl named ↦ inl named
        | inr other ↦ inr (ground arith)
      ],
    )
  ]

  without_path-IsOrigin :
      (allow_http : Bool) (u : Origin)
      → has_no_host u ≡ false
      → is_more u ≡ false
      → is_allowed system allow_http u ≡ true
      → IsOrigin allow_http (without_path u)
  without_path-IsOrigin allow_http u b c d = (
    is_allowed-scheme allow_http u d,
    ne_of_eq-false u.parts.host "" (ground arith),
    ne_of_eq-false u.parts.host_name "" (ground arith),
    eq→path u.opaque "" (ground arith),
    ground arith,
    eq→path u.parts.raw_query "" (ground arith),
    eq→path u.parts.fragment "" (ground arith),
    refl,
  )

  check_origin-IsOrigin :
      (allow_http : Bool) (u : Option Origin) (o : Origin)
      → check_origin system allow_http u ≡ settled o
      → IsOrigin allow_http o
  unfolding check_origin
  check_origin-IsOrigin allow_http none o h = cc
  check_origin-IsOrigin allow_http (some u) o h = elim (if-settled (has_no_host u) h) [
    | inl (b, refused) ↦ cc
    | inr (b, h1) ↦ elim (if-settled (is_more u) h1) [
      | inl (c, refused) ↦ cc
      | inr (c, h2) ↦ elim (if-settled (is_allowed system allow_http u) h2) [
        | inl (d, same) ↦
            subst (IsOrigin allow_http) (settled_inj same)
              (without_path-IsOrigin allow_http u b c d)
        | inr (d, refused) ↦ cc
      ]
    ]
  ]

  pub parse_origin-IsOrigin :
      (raw : String) (allow_http : Bool) (o : Origin)
      → parse_origin system raw allow_http ≡ settled o
      → IsOrigin allow_http o
  unfolding parse_origin
  parse_origin-IsOrigin raw allow_http o h = elim (if-settled (raw == "") h) [
    | inl (b, refused) ↦ cc
    | inr (b, h1) ↦ elim (if-settled (not (trim_space raw == raw)) h1) [
      | inl (c, refused) ↦ cc
      | inr (c, h2) ↦ check_origin-IsOrigin allow_http (system.parse_url raw) o h2
    ]
  ]
