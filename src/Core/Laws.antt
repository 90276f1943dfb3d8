-- ===== src/Core/Laws.antt =====
-- What a successful chain of steps says of its parts.
use certinv.Prelude.{◌≡◌, refl, sym, ap, ◌∙◌}
use certinv.Result.{Result, ok, err, err-ne-ok}
use certinv.Core.{World, Step, continue, ◌>>=◌}

step_continue-eq-ok :
    {A B : Type 0} (x : Result A) (f : A → Step B) (w : World) {b : B}
    → (continue x f w).0 ≡ ok b
    → (a : A) × (x ≡ ok a) × (continue x f w ≡ f a w)
step_continue-eq-ok (ok a) f w h = (a, refl, refl)
step_continue-eq-ok (err e) f w h = absurd (err-ne-ok h)

-- a chain of steps that succeeds: the first did, and the rest did from the world behind it
pub step-eq-ok :
    {A B : Type 0} (m : Step A) (f : A → Step B) (w : World) {b : B}
    → ((m >>= f) w).0 ≡ ok b
    → (a : A) × ((m w).0 ≡ ok a) × ((f a (m w).1).0 ≡ ok b) × (((m >>= f) w).1 ≡ (f a (m w).1).1)
unfolding ◌>>=◌
step-eq-ok m f w h =
    let (a, e, s) = step_continue-eq-ok (m w).0 f (m w).1 h in
    (a, e, sym (ap (λ r. r.0) s) ∙ h, ap (λ r. r.1) s)
