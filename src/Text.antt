-- ===== src/Text.antt =====
-- Go's `strings` package as far as the program uses it, on ASCII text: `ToLower`, `ToUpper`,
-- `TrimSpace`, `TrimPrefix`, `TrimSuffix`, `HasPrefix`, `HasSuffix`, `Contains`, `Index`,
-- `Fields`, `FieldsFunc`, `EqualFold`, `TrimRight` and `strconv.Atoi`. On a character above U+007F the case maps are the identity
-- here, and `is_space` is false.
pub mod Trim
pub mod Suffix
use certinv.Prelude.{
  ℕ, zero, suc, ◌-◌, ◌+◌, ◌*◌, ◌^◌, ℤ, pos, negsuc, sub_ℕ, Option, none, some, String, Char, code,
  Bool, true, false, ◌&&◌, ◌||◌, List, [], ◌∷◌, leb, nat_eq, ◌≡◌, refl, ◌==◌, if◌then◌else◌,
}

abbrev within : ℕ → ℕ → ℕ → Bool
within lo hi c = leb lo c && leb c hi

-- the character at a position, or else `d`
pick : String → ℕ → Char → Char
pick String.[] n d = d
pick (String.◌∷◌ c s) zero d = c
pick (String.◌∷◌ c s) (suc n) d = pick s n d

unfoldable pub lower : Char → Char
unfolding pick
lower c =
    if within b'A' b'Z' (code c) then pick "abcdefghijklmnopqrstuvwxyz" (code c - b'A') c else c

unfoldable pub upper : Char → Char
unfolding pick
upper c =
    if within b'a' b'z' (code c) then pick "ABCDEFGHIJKLMNOPQRSTUVWXYZ" (code c - b'a') c else c

unfoldable pub to_lower : String → String
unfolding lower
to_lower String.[] = String.[]
to_lower (String.◌∷◌ c s) = String.◌∷◌ (lower c) (to_lower s)

unfoldable pub to_upper : String → String
unfolding upper
to_upper String.[] = String.[]
to_upper (String.◌∷◌ c s) = String.◌∷◌ (upper c) (to_upper s)

-- `unicode.IsSpace` on ASCII: tab, newline, vertical tab, form feed, carriage return, space
unfoldable pub is_space : Char → Bool
is_space c = within 9 13 (code c) || nat_eq (code c) 32

unfoldable pub trim_left : String → String
unfolding is_space
trim_left String.[] = String.[]
trim_left (String.◌∷◌ c s) = if is_space c then trim_left s else String.◌∷◌ c s

-- a character in front of what is left of the text behind it
abbrev pub keep_unless_blank : Char → String → String
keep_unless_blank c String.[] = if is_space c then String.[] else String.◌∷◌ c String.[]
keep_unless_blank c (String.◌∷◌ d s) = String.◌∷◌ c (String.◌∷◌ d s)

unfoldable pub trim_right : String → String
unfolding is_space
trim_right String.[] = String.[]
trim_right (String.◌∷◌ c s) = keep_unless_blank c (trim_right s)

unfoldable pub trim_space : String → String
unfolding trim_left trim_right
trim_space s = trim_right (trim_left s)

-- `TrimRight(s, "/")`
abbrev keep_unless_slash : Char → String → String
keep_unless_slash c String.[] = if nat_eq (code c) b'/' then String.[] else String.◌∷◌ c String.[]
keep_unless_slash c (String.◌∷◌ d s) = String.◌∷◌ c (String.◌∷◌ d s)

pub trim_right_slashes : String → String
trim_right_slashes String.[] = String.[]
trim_right_slashes (String.◌∷◌ c s) = keep_unless_slash c (trim_right_slashes s)

unfoldable pub has_prefix : String → String → Bool
has_prefix s String.[] = true
has_prefix String.[] (String.◌∷◌ d t) = false
has_prefix (String.◌∷◌ c s) (String.◌∷◌ d t) = nat_eq (code c) (code d) && has_prefix s t

unfoldable pub has_suffix : String → String → Bool
has_suffix String.[] t = String.[] == t
has_suffix (String.◌∷◌ c s) t = String.◌∷◌ c s == t || has_suffix s t

-- `s` without a trailing `t`
unfoldable pub trim_suffix : String → String → String
trim_suffix String.[] t = String.[]
trim_suffix (String.◌∷◌ c s) t =
    let rest = trim_suffix s t in if String.◌∷◌ c s == t then String.[] else String.◌∷◌ c rest

-- `s` behind `t`, where it begins with it
behind : String → String → String
behind s String.[] = s
behind String.[] (String.◌∷◌ d t) = String.[]
behind (String.◌∷◌ c s) (String.◌∷◌ d t) = behind s t

unfoldable pub trim_prefix : String → String → String
unfolding behind has_prefix
trim_prefix s t = if has_prefix s t then behind s t else s

unfoldable pub contains : String → String → Bool
unfolding has_prefix
contains String.[] t = has_prefix String.[] t
contains (String.◌∷◌ c s) t = has_prefix (String.◌∷◌ c s) t || contains s t

-- the text in front of the first character of that code, or all of it
unfoldable pub before : ℕ → String → String
before k String.[] = String.[]
before k (String.◌∷◌ c s) =
    let rest = before k s in if nat_eq (code c) k then String.[] else String.◌∷◌ c rest

-- a character put in front of the first of the words
abbrev put_first : Char → List String → List String
put_first c [] = String.◌∷◌ c String.[] ∷ []
put_first c (w ∷ ws) = String.◌∷◌ c w ∷ ws

-- the words between separators, an empty word for each separator; what stands in front of the
-- first separator is the first word
pub split_at : (Char → Bool) → String → List String
split_at sep String.[] = String.[] ∷ []
split_at sep (String.◌∷◌ c s) =
    let rest = split_at sep s in if sep c then String.[] ∷ rest else put_first c rest

pub non_empty : List String → List String
non_empty [] = []
non_empty (w ∷ ws) = let rest = non_empty ws in if w == "" then rest else w ∷ rest

unfoldable pub fields_func : (Char → Bool) → String → List String
unfolding split_at non_empty
fields_func sep s = non_empty (split_at sep s)

unfoldable pub fields : String → List String
unfolding fields_func is_space
fields = fields_func is_space

unfoldable pub equal_fold : String → String → Bool
unfolding to_lower
equal_fold s t = to_lower s == to_lower t

-- `strconv.Atoi`: a sign, and then digits, in the range of `int64`
digits : ℕ → String → Option ℕ
digits n String.[] = some n
digits n (String.◌∷◌ c s) =
    let rest = digits (n * 10 + (code c - 48)) s in if within 48 57 (code c) then rest else none

magnitude : String → Option ℕ
magnitude String.[] = none
magnitude (String.◌∷◌ c s) = digits 0 (String.◌∷◌ c s)

abbrev at_most : ℕ → (ℕ → ℤ) → Option ℕ → Option ℤ
at_most bound f none = none
at_most bound f (some n) = if leb n bound then some (f n) else none

unfoldable pub atoi : String → Option ℤ
unfolding digits magnitude
atoi String.[] = none
atoi (String.◌∷◌ c s) =
    if nat_eq (code c) b'-'
    then at_most (2 ^ 63) (sub_ℕ 0) (magnitude s)
    else if nat_eq (code c) b'+'
    then at_most (2 ^ 63 - 1) pos (magnitude s)
    else at_most (2 ^ 63 - 1) pos (magnitude (String.◌∷◌ c s))

atoi_test :
    (atoi "-08" ≡ some (negsuc 7)) × (atoi "9223372036854775808" ≡ none) × (atoi "IN" ≡ none)
unfolding atoi
atoi_test = (refl, refl, refl)

fields_test : fields " a  3600 IN\tCNAME " ≡ "a" ∷ "3600" ∷ "IN" ∷ "CNAME" ∷ []
unfolding fields
fields_test = refl

trim_test : trim_suffix (to_lower (trim_space " WWW.Example.COM. ")) "." ≡ "www.example.com"
unfolding trim_suffix to_lower trim_space
trim_test = refl

contains_test : contains "c=us, let's encrypt r10" "let's encrypt" ≡ true
unfolding contains
contains_test = refl
