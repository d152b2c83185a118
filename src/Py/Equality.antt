-- ===== src/Py/Equality.antt =====
-- `==` on texts and on optional texts, as tests.
use amarr.Prelude.{
  ◌≡◌, refl, ap, ◌↔◌, Bool, true, false, ◌&&◌, Option, none, some, [], ◌∷◌, arith, ◌==◌,
}
use amarr.Py.Seq.{Text}

unfoldable pub eq_text : Text → Text → Bool
eq_text [] [] = true
eq_text (a ∷ s) (b ∷ t) = a == b && eq_text s t
eq_text _ _ = false

pub eq_text_iff : (s t : Text) → (eq_text s t ≡ true) ↔ (s ≡ t)
unfolding eq_text
eq_text_iff [] [] = ((λ h. refl), (λ e. refl))
eq_text_iff [] (b ∷ t) = ((λ h. cc), (λ e. cc))
eq_text_iff (a ∷ s) [] = ((λ h. cc), (λ e. cc))
eq_text_iff (a ∷ s) (b ∷ t) =
    ((λ h. ground (arith, (eq_text_iff s t).0)), (λ e. ground (arith, (eq_text_iff s t).1)))

pub eq_text_refl : (s : Text) → eq_text s s ≡ true
eq_text_refl s = (eq_text_iff s s).1 refl

-- `None` equals itself alone.
unfoldable pub eq_optional : Option Text → Option Text → Bool
eq_optional none none = true
eq_optional (some s) (some t) = eq_text s t
eq_optional _ _ = false

pub eq_optional_iff : (s t : Option Text) → (eq_optional s t ≡ true) ↔ (s ≡ t)
unfolding eq_optional
eq_optional_iff none none = ((λ h. refl), (λ e. refl))
eq_optional_iff none (some t) = ((λ h. cc), (λ e. cc))
eq_optional_iff (some s) none = ((λ h. cc), (λ e. cc))
eq_optional_iff (some s) (some t) =
    ((λ h. ap some ((eq_text_iff s t).0 h)), (λ e. ground (arith, (eq_text_iff s t).1)))
