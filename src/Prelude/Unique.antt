-- ===== src/Prelude/Unique.antt =====
-- Lists in which no two elements agree on a field.
use mathlib.Core.Path.{◌≡◌, sym, ◌∙◌}
use mathlib.Core.Logic.{◌≢◌, inl, inr}
use mathlib.Core.Bool.{Bool}
use mathlib.Core.List.{List, [], ◌∷◌, ◌++◌, map}
use zabbig.Prelude.Tests.{Bool-cases}
use zabbig.Prelude.Lists.{All, keep}

module _ {A : Type 0} where
  pub All-imply : (P Q : A → Type 0) → ((x : A) → P x → Q x) → (xs : List A) → All P xs → All Q xs
  All-imply P Q f [] h = tt
  All-imply P Q f (x ∷ xs) (h, hs) = (f x h, All-imply P Q f xs hs)

  pub All-snoc : (P : A → Type 0) (xs : List A) (y : A) → All P xs → P y → All P (xs ++ (y ∷ []))
  All-snoc P [] y hs h = (h, tt)
  All-snoc P (x ∷ xs) y (hx, hs) h = (hx, All-snoc P xs y hs h)

  pub All-keep : (P : A → Type 0) (test : A → Bool) (xs : List A) → All P xs → All P (keep test xs)
  unfolding keep
  All-keep P test [] h = tt
  All-keep P test (x ∷ xs) (h, hs) = elim (Bool-cases (test x)) [
    | inl kept ↦ rw kept (h, All-keep P test xs hs)
    | inr left_out ↦ rw left_out (All-keep P test xs hs)
  ]

  pub All-map :
      (P : A → Type 0) (f : A → A)
      → ((x : A) → P x → P (f x))
      → (xs : List A) → All P xs
      → All P (map f xs)
  All-map P f k [] h = tt
  All-map P f k (x ∷ xs) (h, hs) = (k x h, All-map P f k xs hs)

  module _ {B : Type 0} (field : A → B) where
    -- No two elements have the same field.
    abbrev pub UniqueBy : List A → Type 0
    UniqueBy [] = Unit
    UniqueBy (x ∷ xs) = All (λ y. field y ≢ field x) xs × UniqueBy xs

    pub UniqueBy-snoc :
        (xs : List A) (y : A)
        → UniqueBy xs
        → All (λ x. field y ≢ field x) xs
        → UniqueBy (xs ++ (y ∷ []))
    UniqueBy-snoc [] y u h = (tt, tt)
    UniqueBy-snoc (x ∷ xs) y (others, u) (differ, h) =
        (All-snoc _ xs y others differ, UniqueBy-snoc xs y u h)

    pub UniqueBy-keep : (test : A → Bool) (xs : List A) → UniqueBy xs → UniqueBy (keep test xs)
    unfolding keep
    UniqueBy-keep test [] u = tt
    UniqueBy-keep test (x ∷ xs) (differ, u) = elim (Bool-cases (test x)) [
      | inl kept ↦
          rw kept (All-keep (λ y. field y ≢ field x) test xs differ, UniqueBy-keep test xs u)
      | inr left_out ↦ rw left_out (UniqueBy-keep test xs u)
    ]

    -- A change of other fields.
    pub UniqueBy-map :
        (f : A → A)
        → ((x : A) → field (f x) ≡ field x)
        → (xs : List A) → UniqueBy xs
        → UniqueBy (map f xs)
    UniqueBy-map f same [] u = tt
    UniqueBy-map f same (x ∷ xs) (differ, u) = (
      All-map (λ y. field y ≢ field (f x)) f (λ y d e. d (sym (same y) ∙ e)) xs
          (All-imply (λ y. field y ≢ field x) (λ y. field y ≢ field (f x)) (λ y d e. d (e ∙ same x))
            xs differ),
      UniqueBy-map f same xs u,
    )
