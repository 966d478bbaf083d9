-- ===== src/PcrConfig/Flag.antt =====
-- internal/pcrconfig/config.go: the two spellings of --config.
use Prim.Native.String.{[], ◌∷◌}
use Prim.Native.String.append
use mathlib.Core.List
use go_prod_change_registry.Prelude.{
  String, Char, true, false, List, ◌++◌, Option, none, some, ◌==◌, ◌≡◌, ◌≢◌, refl, sym, ap, ◌∙◌,
  arith, Bool-cases, inl, inr, eq→path,
}
use go_prod_change_registry.Text.{◌+++◌, cut_prefix, has_prefix}
use go_prod_change_registry.PcrConfig.{Settled, invalid, settled, ◌>>=◌, System}
use go_prod_change_registry.PcrConfig.Path.{
  scan_args, config_path_from_args, separate_flag_value, found_again, take_separate, take_attached,
  keep_or_take, bootstrap_path, choose_path,
}

bind-cong {κ ℓ} :
    {V : Type κ} {W : Type ℓ} (m : Settled V) {k k2 : V → Settled W}
    → ((v : V) → k v ≡ k2 v)
    → (m >>= k) ≡ (m >>= k2)
bind-cong (invalid e) h = refl
bind-cong (settled v) h = h v

cut_prefix-append : (p s : String) → cut_prefix p (p +++ s) ≡ some s
unfolding cut_prefix
cut_prefix-append [] s = ap (cut_prefix []) (append.nil s)
cut_prefix-append (c ∷ p) s =
    ap (cut_prefix (c ∷ p)) (append.cons c p s) ∙ ground (arith, cut_prefix-append p s)

has_prefix-append : (c : Char) (p s : String) → has_prefix (c ∷ []) ((c ∷ p) +++ s) ≡ true
unfolding has_prefix cut_prefix
has_prefix-append c p s = ap (has_prefix (c ∷ [])) (append.cons c p s) ∙ ground arith

abbrev attached : String → String
attached v = "--config=" +++ v

no_value : cut_prefix "--config=" "--config" ≡ none
unfolding cut_prefix
no_value = refl

some-ne-none : {s : String} → some s ≢ none
some-ne-none p = cc

attached-separate : (v : String) → (attached v == "--config") ≡ false
attached-separate v = elim (Bool-cases (attached v == "--config")) [
  | inl same ↦ absurd (
      some-ne-none (
        sym (cut_prefix-append "--config=" v)
        ∙ ap (cut_prefix "--config=") (eq→path (attached v) "--config" same)
        ∙ no_value))
  | inr other ↦ other
]

abbrev separate : List.List String → String → List.List String → List.List String
separate before v after = before ++ (List.◌∷◌ "--config" (List.◌∷◌ v after))

bind-settled {ℓ} : {V : Type ℓ} (m : Settled V) → m ≡ (m >>= λ v. settled v)
bind-settled (invalid e) = refl
bind-settled (settled v) = refl

scan-other :
    (found : Option String) (x : String) (rest : List.List String)
    → (x == "--config") ≡ false
    → scan_args found (List.◌∷◌ x rest) ≡ (take_attached found x >>= λ now. scan_args now rest)
unfolding scan_args
scan-other found x List.[] h = rw (scan_args, h) (bind-settled (take_attached found x))
scan-other found x (List.◌∷◌ y rest) h = rw (scan_args, h) refl

scan-flag :
    (found : Option String) (x y : String) (rest : List.List String)
    → (x == "--config") ≡ true
    → scan_args found (List.◌∷◌ x (List.◌∷◌ y rest))
      ≡ (take_separate found (List.◌∷◌ y rest) >>= λ now. scan_args now rest)
unfolding scan_args
scan-flag found x y rest h = rw (scan_args, h) refl

take_attached-attached :
    (found : Option String) (v : String) → take_attached found (attached v) ≡ found_again found v
take_attached-attached found v = ap (keep_or_take found) (cut_prefix-append "--config=" v)

module _ (v : String) (after : List.List String) where
  scan-attached :
      (found : Option String)
      → scan_args found (List.◌∷◌ (attached v) after)
        ≡ (found_again found v >>= λ now. scan_args now after)
  scan-attached found =
      scan-other found (attached v) after (attached-separate v)
      ∙ ap (λ m. m >>= λ now. scan_args now after) (take_attached-attached found v)

  module _ (is_value : has_prefix "-" v ≡ false) where
    take_separate-found_again :
        (found : Option String) → take_separate found (List.◌∷◌ v after) ≡ found_again found v
    unfolding separate_flag_value
    take_separate-found_again none = rw is_value refl
    take_separate-found_again (some first) = refl

    scan-separate :
        (found : Option String)
        → scan_args found (List.◌∷◌ "--config" (List.◌∷◌ v after))
          ≡ (found_again found v >>= λ now. scan_args now after)
    scan-separate found =
        scan-flag found "--config" v after refl
        ∙ ap (λ m. m >>= λ now. scan_args now after) (take_separate-found_again found)

    no_value_behind :
        (found : Option String) (y : String) (rest rest2 : List.List String)
        (k : Option String → Settled (Option String))
        → (take_separate found (List.◌∷◌ y rest) >>= k)
          ≡ (take_separate found (List.◌∷◌ y rest2) >>= k)
    unfolding separate_flag_value
    no_value_behind none y rest rest2 k = refl
    no_value_behind (some first) y rest rest2 k = refl

    looks_like_flag : has_prefix "-" (attached v) ≡ true
    looks_like_flag = has_prefix-append "-" "-config=" v

    refused_alike :
        (found : Option String) (rest rest2 : List.List String)
        (k k2 : Option String → Settled (Option String))
        → (take_separate found (List.◌∷◌ (attached v) rest) >>= k)
          ≡ (take_separate found (List.◌∷◌ "--config" rest2) >>= k2)
    unfolding separate_flag_value has_prefix cut_prefix
    refused_alike none rest rest2 k k2 = rw (separate_flag_value, looks_like_flag) refl
    refused_alike (some first) rest rest2 k k2 = refl

    scan-same :
        (found : Option String) (before : List.List String)
        → scan_args found (before ++ (List.◌∷◌ (attached v) after))
          ≡ scan_args found (separate before v after)
    scan-same found List.[] = scan-attached found ∙ sym (scan-separate found)
    scan-same found (List.◌∷◌ x List.[]) = elim (Bool-cases (x == "--config")) [
      | inl same ↦
          scan-flag found x (attached v) after same
          ∙ refused_alike found after (List.◌∷◌ v after) _ _
          ∙ sym (scan-flag found x "--config" (List.◌∷◌ v after) same)
      | inr other ↦
          scan-other found x _ other
          ∙ bind-cong (take_attached found x) (λ now. scan-same now List.[])
          ∙ sym (scan-other found x _ other)
    ]
    scan-same found (List.◌∷◌ x (List.◌∷◌ y before)) = elim (Bool-cases (x == "--config")) [
      | inl same ↦
          scan-flag found x y _ same
          ∙ bind-cong (take_separate found (List.◌∷◌ y _)) (λ now. scan-same now before)
          ∙ no_value_behind found y _ _ _
          ∙ sym (scan-flag found x y _ same)
      | inr other ↦
          scan-other found x _ other
          ∙ bind-cong (take_attached found x) (λ now. scan-same now (List.◌∷◌ y before))
          ∙ sym (scan-other found x _ other)
    ]

-- `--config=PATH` and `--config PATH` choose the same path, or are refused alike, wherever they stand
-- among the arguments and whatever the others are. The path does not look like a flag.
pub bootstrap_path-spellings :
    (system : System) (getenv : String → String) (v : String) (before after : List.List String)
    → has_prefix "-" v ≡ false
    → bootstrap_path system (before ++ (List.◌∷◌ ("--config=" +++ v) after)) getenv
      ≡ bootstrap_path system (before ++ (List.◌∷◌ "--config" (List.◌∷◌ v after))) getenv
unfolding bootstrap_path config_path_from_args
bootstrap_path-spellings system getenv v before after is_value =
    ap (λ m. m >>= choose_path system getenv) (scan-same v after is_value none before)
