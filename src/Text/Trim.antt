-- ===== src/Text/Trim.antt =====
-- What `TrimSpace` and `ToLower` leave at the two ends of a text.
use certinv.Prelude.{
  if◌then◌else◌, ℕ, zero, suc, ◌-◌, ◌<◌, ◌≤◌, ◌⊎◌, inl, inr, String, Char, code, Bool, true, false,
  not, ◌&&◌, ◌||◌, ◌≡◌, refl, leb, nat_eq, arith,
}
use certinv.Text.{pick, lower, to_lower, is_space, trim_left, trim_right, keep_unless_blank}

-- the text does not begin with a blank
unfoldable pub head_clean : String → Bool
unfolding is_space
head_clean String.[] = true
head_clean (String.◌∷◌ c s) = not (is_space c)

-- the text is not empty, and ends neither with a blank nor with a dot
unfoldable pub ends_clean : String → Bool
unfolding is_space
ends_clean String.[] = false
ends_clean (String.◌∷◌ c String.[]) = not (is_space c || nat_eq (code c) b'.')
ends_clean (String.◌∷◌ c (String.◌∷◌ d s)) = ends_clean (String.◌∷◌ d s)

pub head_clean-trim_left : (s : String) → head_clean (trim_left s) ≡ true
unfolding head_clean trim_left
head_clean-trim_left String.[] = refl
head_clean-trim_left (String.◌∷◌ c s) = ground (arith, head_clean-trim_left s)

pub trim_left_of_head_clean : (s : String) → head_clean s ≡ true → trim_left s ≡ s
unfolding head_clean trim_left
trim_left_of_head_clean String.[] h = refl
trim_left_of_head_clean (String.◌∷◌ c s) h = ground arith

head_clean-keep :
    (c : Char) (s : String) → not (is_space c) ≡ true → head_clean (keep_unless_blank c s) ≡ true
unfolding head_clean
head_clean-keep c String.[] h = ground arith
head_clean-keep c (String.◌∷◌ d s) h = h

pub head_clean-trim_right : (s : String) → head_clean s ≡ true → head_clean (trim_right s) ≡ true
unfolding trim_right head_clean
head_clean-trim_right String.[] h = refl
head_clean-trim_right (String.◌∷◌ c s) h = unfold head_clean in head_clean-keep c (trim_right s) h

pub trim_right_of_ends_clean : (s : String) → ends_clean s ≡ true → trim_right s ≡ s
unfolding trim_right ends_clean
trim_right_of_ends_clean String.[] h = refl
trim_right_of_ends_clean (String.◌∷◌ c String.[]) h = ground arith
trim_right_of_ends_clean (String.◌∷◌ c (String.◌∷◌ d s)) h =
    rw (trim_right_of_ends_clean (String.◌∷◌ d s) h)

pub ends_clean-cons :
    (c : Char) (s : String) → ends_clean s ≡ true → ends_clean (String.◌∷◌ c s) ≡ true
unfolding ends_clean
ends_clean-cons c String.[] h = cc
ends_clean-cons c (String.◌∷◌ d s) h = h

-- a test on all numbers below a bound, tried one after another
holds_below : (test : ℕ → Bool) (bound : ℕ) → Bool
holds_below test zero = true
holds_below test (suc k) = let smaller = holds_below test k in if test k then smaller else false

holds_below_sound :
    (test : ℕ → Bool) (bound k : ℕ) → holds_below test bound ≡ true → k < bound → test k ≡ true
unfolding holds_below
holds_below_sound test zero k all below = absurd (omega arith)
holds_below_sound test (suc b) k all below = ground (arith, holds_below_sound test b k)

-- a code that the case maps to lower case leave alone, and that is no blank
abbrev is_plain : ℕ → Bool
is_plain k = leb 97 k && leb k 122

lower_table :
    (c : Char)
    → holds_below (λ k. is_plain (code (pick "abcdefghijklmnopqrstuvwxyz" k c))) 26 ≡ true
unfolding holds_below lower
lower_table c = refl

lower_at :
    (c : Char)
    → 65 ≤ code c
    → code c ≤ 90
    → is_plain (code (pick "abcdefghijklmnopqrstuvwxyz" (code c - 65) c)) ≡ true
lower_at c lo hi =
    holds_below_sound (λ k. is_plain (code (pick "abcdefghijklmnopqrstuvwxyz" k c))) 26
      (code c - 65) (lower_table c) (omega arith)

lower_plain : (c : Char) → is_plain (code c) ≡ true → lower c ≡ c
unfolding lower
lower_plain c h = ground arith

lower_cases :
    (c : Char)
    → (lower c ≡ c) ⊎ ((is_plain (code (lower c)) ≡ true) × (65 ≤ code c) × (code c ≤ 90))
unfolding lower
lower_cases c = ground (arith, lower_at c)

pub lower-lower : (c : Char) → lower (lower c) ≡ lower c
lower-lower c = elim (lower_cases c) [ inl e ↦ rw e e | inr h ↦ lower_plain (lower c) h.0 ]

pub is_space-lower : (c : Char) → is_space (lower c) ≡ is_space c
unfolding is_space
is_space-lower c = ground (arith, lower_cases c)

pub to_lower-to_lower : (s : String) → to_lower (to_lower s) ≡ to_lower s
unfolding to_lower
to_lower-to_lower String.[] = refl
to_lower-to_lower (String.◌∷◌ c s) = rw (lower-lower c, to_lower-to_lower s)

pub head_clean-to_lower : (s : String) → head_clean (to_lower s) ≡ head_clean s
unfolding to_lower head_clean
head_clean-to_lower String.[] = refl
head_clean-to_lower (String.◌∷◌ c s) = rw (is_space-lower c)
