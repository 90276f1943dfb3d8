-- ===== src/Discover/Names.antt =====
-- When normalizing a host name is settled, and names within an apex.
use certinv.Prelude.{
  String, concat, true, some, List, [], ◌∷◌, ◌++◌, ◌==◌, eq_iff, ◌≡◌, inl, inr, refl, ◌∙◌, arith,
  Bool-cases, All,
}
use certinv.Text.{trim_space, to_lower, trim_left}
use certinv.Text.Trim.{
  head_clean, ends_clean, head_clean-trim_left, trim_left_of_head_clean, head_clean-trim_right,
  trim_right_of_ends_clean, head_clean-to_lower, to_lower-to_lower, ends_clean-cons,
}
use certinv.Text.Suffix.{
  head_clean-trim_suffix, to_lower-trim_suffix, trim_suffix-dot, ends_clean-has_suffix, dot-append,
}
use certinv.Discover.{normalize_hostname, within_apex, apex_for}

-- Normalizing trims blanks before it drops one final dot, so "a. ." or "a.." is not settled.
abbrev pub IsSettled : String → Type 0
IsSettled name = ends_clean name ≡ true

head_clean-normalize : (h : String) → head_clean (normalize_hostname h) ≡ true
unfolding normalize_hostname
head_clean-normalize h = head_clean-trim_suffix (to_lower (trim_space h)) "." (
    head_clean-to_lower (trim_space h)
    ∙ unfold trim_space in head_clean-trim_right (trim_left h) (head_clean-trim_left h))

to_lower-normalize : (h : String) → to_lower (normalize_hostname h) ≡ normalize_hostname h
unfolding normalize_hostname
to_lower-normalize h =
    to_lower-trim_suffix (to_lower (trim_space h)) "." (to_lower-to_lower (trim_space h))

normalize_fixed :
    (x : String) → head_clean x ≡ true → to_lower x ≡ x → IsSettled x → normalize_hostname x ≡ x
unfolding normalize_hostname trim_space
normalize_fixed x hc lc e =
    rw (trim_left_of_head_clean x hc, trim_right_of_ends_clean x e, lc, trim_suffix-dot x e)

pub normalize_hostname_idem :
    (h : String)
    → IsSettled (normalize_hostname h)
    → normalize_hostname (normalize_hostname h) ≡ normalize_hostname h
normalize_hostname_idem h =
    normalize_fixed (normalize_hostname h) (head_clean-normalize h) (to_lower-normalize h)

-- A name within an apex that is settled is settled too.
pub within_apex-IsSettled :
    (h apex : String)
    → IsSettled (normalize_hostname apex)
    → within_apex h apex ≡ true
    → IsSettled (normalize_hostname h)
unfolding within_apex
within_apex-IsSettled h apex e w =
    let a = normalize_hostname apex in
    let n = normalize_hostname h in
    elim (Bool-cases (n == a)) [
      | inl same ↦ rw ((eq_iff n a).0 same) e
      | inr other ↦
          ends_clean-has_suffix n (concat "." a) (ground arith)
            (rw dot-append (ends_clean-cons "." a e))
    ]

-- Such a name stays within the apex when it is normalized again.
pub within_apex-normalize :
    (h apex : String)
    → IsSettled (normalize_hostname apex)
    → within_apex h apex ≡ true
    → within_apex (normalize_hostname h) apex ≡ true
unfolding within_apex
within_apex-normalize h apex e w =
    rw (normalize_hostname_idem h (within_apex-IsSettled h apex e w)) w

within_apex-fixed :
    (h apex : String)
    → IsSettled (normalize_hostname h)
    → within_apex (normalize_hostname h) apex ≡ within_apex h apex
unfolding within_apex
within_apex-fixed h apex e = rw (normalize_hostname_idem h e)

pub apex_for-fixed :
    (h : String) (apexes : List String)
    → IsSettled (normalize_hostname h)
    → apex_for (normalize_hostname h) apexes ≡ apex_for h apexes
unfolding apex_for
apex_for-fixed h [] e = refl
apex_for-fixed h (a ∷ apexes) e = rw (within_apex-fixed h a e, apex_for-fixed h apexes e)

abbrev pub AreSettled : List String → Type 0
AreSettled = All (λ apex. IsSettled (normalize_hostname apex))

pub apex_for-IsSettled :
    (h : String) (apexes : List String) (apex : String)
    → AreSettled apexes
    → apex_for h apexes ≡ some apex
    → IsSettled (normalize_hostname h)
unfolding apex_for
apex_for-IsSettled h [] apex s e = cc
apex_for-IsSettled h (a ∷ apexes) apex s e = elim (Bool-cases (within_apex h a)) [
  | inl w ↦ within_apex-IsSettled h a s.0 w
  | inr o ↦ apex_for-IsSettled h apexes apex s.1 (rw o at e)
]

-- A host name that lies within one of the apexes, all settled, lies within the same one when it is
-- normalized again.
pub apex_for-normalize :
    (h : String) (apexes : List String) (apex : String)
    → AreSettled apexes
    → apex_for h apexes ≡ some apex
    → apex_for (normalize_hostname h) apexes ≡ some apex
apex_for-normalize h apexes apex s e =
    apex_for-fixed h apexes (apex_for-IsSettled h apexes apex s e) ∙ e

-- A name within one apex of a list is found to be within some apex of it.
pub apex_for_of_within :
    (h a : String) (apexes more : List String)
    → within_apex h a ≡ true
    → (apex : String) × (apex_for h (apexes ++ a ∷ more) ≡ some apex)
unfolding apex_for
apex_for_of_within h a [] more w = (normalize_hostname a, rw w)
apex_for_of_within h a (b ∷ apexes) more w = elim (Bool-cases (within_apex h b)) [
  | inl y ↦ (normalize_hostname b, rw y)
  | inr n ↦ let (x, e) = apex_for_of_within h a apexes more w in (x, rw n e)
]

-- An apex that is settled may be normalized first.
pub within_apex-apex :
    (h apex : String)
    → IsSettled (normalize_hostname apex)
    → within_apex h (normalize_hostname apex) ≡ within_apex h apex
unfolding within_apex
within_apex-apex h apex e = rw (normalize_hostname_idem apex e)
