-- ===== src/Text/Suffix.antt =====
-- `TrimSuffix` and `HasSuffix`.
use Prim.Native.String.append
use certinv.Prelude.{
  ap, ◌∙◌, subst, String, concat, true, false, ◌≡◌, refl, arith, ◌==◌, eq_iff, Bool-cases, inl, inr,
}
use certinv.Text.{to_lower, has_suffix, trim_suffix}
use certinv.Text.Trim.{head_clean, ends_clean, ends_clean-cons}

pub head_clean-trim_suffix :
    (s t : String) → head_clean s ≡ true → head_clean (trim_suffix s t) ≡ true
unfolding trim_suffix head_clean
head_clean-trim_suffix String.[] t h = refl
head_clean-trim_suffix (String.◌∷◌ c s) t h = elim (Bool-cases (String.◌∷◌ c s == t)) [
  | inl e ↦ rw e refl
  | inr e ↦ rw e h
]

-- what is in lower case stays so
pub to_lower-trim_suffix :
    (s t : String) → to_lower s ≡ s → to_lower (trim_suffix s t) ≡ trim_suffix s t
unfolding trim_suffix to_lower
to_lower-trim_suffix String.[] t h = refl
to_lower-trim_suffix (String.◌∷◌ c s) t h = elim (Bool-cases (String.◌∷◌ c s == t)) [
  | inl e ↦ rw e refl
  | inr e ↦ rw e (ground (arith, to_lower-trim_suffix s t))
]

not-dot_of_ends_clean : (s : String) → ends_clean s ≡ true → (s == ".") ≡ false
unfolding ends_clean
not-dot_of_ends_clean s h = elim (Bool-cases (s == ".")) [
  | inl e ↦ cc (subst (λ x. ends_clean x ≡ true) ((eq_iff s ".").0 e) h)
  | inr e ↦ e
]

pub trim_suffix-dot : (s : String) → ends_clean s ≡ true → trim_suffix s "." ≡ s
unfolding trim_suffix ends_clean
trim_suffix-dot String.[] h = refl
trim_suffix-dot (String.◌∷◌ c String.[]) h = rw (not-dot_of_ends_clean (String.◌∷◌ c String.[]) h)
trim_suffix-dot (String.◌∷◌ c (String.◌∷◌ d s)) h =
    rw (not-dot_of_ends_clean (String.◌∷◌ c (String.◌∷◌ d s)) h)
      (ap (String.◌∷◌ c) (trim_suffix-dot (String.◌∷◌ d s) h))

-- A text that ends with one that ends clean does so too.
pub ends_clean-has_suffix :
    (s t : String) → has_suffix s t ≡ true → ends_clean t ≡ true → ends_clean s ≡ true
unfolding has_suffix
ends_clean-has_suffix String.[] t h e = ground (arith, eq_iff String.[] t)
ends_clean-has_suffix (String.◌∷◌ c s) t h e =
    ground (arith, eq_iff (String.◌∷◌ c s) t, ends_clean-has_suffix s t, ends_clean-cons c s)

pub dot-append : (s : String) → concat "." s ≡ String.◌∷◌ "." s
dot-append s = append.cons "." "" s ∙ ap (String.◌∷◌ ".") (append.nil s)
