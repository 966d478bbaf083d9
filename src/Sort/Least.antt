-- ===== src/Sort/Least.antt =====
-- The least element of a kind in a list, under a strict order.
use go_prod_change_registry.Prelude.{
  Bool, true, false, ◌&&◌, List, [], ◌∷◌, any, ◌≡◌, refl, arith, Bool-cases, inl, inr,
}

module _ {ℓ} {A : Type ℓ} (less : A → A → Bool) (kind : A → Bool)
    (irreflexive : (x : A) → less x x ≡ false)
    (trans : (x y z : A) → less x y ≡ true → less y z ≡ true → less x z ≡ true) where
  -- An element of the list, given by the tests it passes, before which no element of the kind stands.
  pub record Least (xs : List A) : Type ℓ where
    pub least : A
    pub of_kind : kind least ≡ true
    pub listed : (test : A → Bool) → test least ≡ true → any test xs ≡ true
    pub no_less : any (λ x. kind x && less x least) xs ≡ false

  no_less_of_less :
      (x y : A) (xs : List A)
      → less x y ≡ true
      → any (λ z. kind z && less z y) xs ≡ false
      → any (λ z. kind z && less z x) xs ≡ false
  no_less_of_less x y [] h n = refl
  no_less_of_less x y (z ∷ xs) h n = ground (arith, trans z x y, no_less_of_less x y xs h)

  none_less : (x : A) (xs : List A) → any kind xs ≡ false → any (λ z. kind z && less z x) xs ≡ false
  none_less x [] h = refl
  none_less x (z ∷ xs) h = ground (arith, none_less x xs)

  here : (x : A) (xs : List A) (test : A → Bool) → test x ≡ true → any test (x ∷ xs) ≡ true
  here x xs test h = ground arith

  there : (x : A) (xs : List A) (test : A → Bool) → any test xs ≡ true → any test (x ∷ xs) ≡ true
  there x xs test h = ground arith

  Least-keep :
      (x : A) (xs : List A) (l : Least xs) → (kind x && less x l.least) ≡ false → Least (x ∷ xs)
  Least-keep x xs l h = record {
    least = l.least;
    of_kind = l.of_kind;
    listed = λ test t. there x xs test (l.listed test t);
    no_less = ground (arith, l.no_less);
  }

  Least-new :
      (x : A) (xs : List A)
      → kind x ≡ true
      → any (λ z. kind z && less z x) xs ≡ false
      → Least (x ∷ xs)
  Least-new x xs h n = record {
    least = x;
    of_kind = h;
    listed = here x xs;
    no_less = ground (arith, irreflexive x, n);
  }

  pub Least-of_any : (xs : List A) → any kind xs ≡ true → Least xs
  Least-of_any [] h = ground arith
  Least-of_any (x ∷ xs) h = elim (Bool-cases (any kind xs)) [
    | inr no_more ↦ Least-new x xs (ground (arith, h)) (none_less x xs no_more)
    | inl more ↦
        let l = Least-of_any xs more in
        elim (Bool-cases (kind x && less x l.least)) [
          | inr later ↦ Least-keep x xs l later
          | inl first ↦
              Least-new x xs (ground (arith, first))
                (no_less_of_less x l.least xs (ground (arith, first)) l.no_less)
        ]
  ]
