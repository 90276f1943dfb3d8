-- ===== src/Discover/CrtName.antt =====
-- internal/discover/crtname/crtname.go: hosts from the certificate search of crt.name. The HTTP
-- request with its JSON answer, and `time.Parse`, are parameters.
use certinv.Prelude.{
  String, Char, code, Bool, true, not, ◌||◌, Option, none, some, List, [], ◌∷◌, ◌++◌, ◌==◌, nat_eq,
  ◌≡◌, inl, inr, subst, All, All-append, All-map, Bool-cases, if◌then◌else◌,
}
use certinv.Clock.{Time}
use certinv.Text.{fields_func, trim_prefix, trim_right_slashes}
use certinv.Discover.{Host, default_port, normalize_hostname, within_apex, merge}
use certinv.Discover.Names.{
  AreSettled, IsSettled, within_apex-apex, normalize_hostname_idem, apex_for_of_within,
  within_apex-normalize,
}
use certinv.Discover.Scope.{InScope, InScopeName, InScopeName-cons, merge-InScope}
use certinv.Result.{Result, ok, ◌>>=◌, >>=-eq-ok, ok-injective}

pub record Record : Type 0 where
  pub sub : String
  pub subdomain : String
  pub name_value : String
  pub first_seen : String
  pub not_before : String

is_separator : Char → Bool
is_separator c =
    nat_eq (code c) b'\n' || nat_eq (code c) b',' || nat_eq (code c) b' ' || nat_eq (code c) b'\t'

-- the names of one field, without a wildcard's label
names_in : List String → List String
names_in [] = []
names_in (word ∷ words) =
    let name = trim_prefix (normalize_hostname word) "*." in
    let rest = names_in words in if not (name == "") then name ∷ rest else rest

unfoldable pub hostnames : Record → List String
unfolding is_separator names_in
hostnames r =
    names_in (fields_func is_separator r.sub)
    ++ (names_in (fields_func is_separator r.subdomain)
        ++ names_in (fields_func is_separator r.name_value))

-- `Time.Parse` of a layout and a text
abbrev pub ParseTime : Type 0
ParseTime = String → String → Option Time

abbrev layouts : List String
layouts =
    "2006-01-02T15:04:05Z07:00" ∷ "2006-01-02T15:04:05" ∷ "2006-01-02 15:04:05" ∷ "2006-01-02" ∷ []

first_layout : ParseTime → List String → String → Option Time
first_layout parse [] raw = none
first_layout parse (layout ∷ rest) raw = elim (parse layout raw) [
  | some t ↦ some t
  | none ↦ first_layout parse rest raw
]

unfoldable pub first_seen_time : ParseTime → Record → Option Time
unfolding first_layout
first_seen_time parse r =
    let late = if r.not_before == "" then none else first_layout parse layouts r.not_before in
    if r.first_seen == ""
    then late
    else elim (first_layout parse layouts r.first_seen) [ some t ↦ some t | none ↦ late ]

-- The request for one apex: the endpoint and the apex. An answer other than 2xx, and one that is
-- no JSON list of records, is an error.
abbrev pub Fetch : Type 0
Fetch = String → String → Result (List Record)

-- what is known of an apex that is searched for: a name within it is within one of the apexes
abbrev Covers : List String → String → Type 0
Covers apexes apex =
    IsSettled (normalize_hostname apex)
    × ((name : String) → within_apex name apex ≡ true → InScopeName apexes name)

Covers-cons :
    (a : String) (apexes : List String) (apex : String)
    → Covers apexes apex
    → Covers (a ∷ apexes) apex
Covers-cons a apexes apex c = (c.0, λ name w. InScopeName-cons a apexes name (c.1 name w))

Covers-self :
    (a : String) (apexes : List String)
    → IsSettled (normalize_hostname a)
    → Covers (a ∷ apexes) (normalize_hostname a)
Covers-self a apexes s = (
  rw (normalize_hostname_idem a s) s,
  λ name w. apex_for_of_within name a [] apexes (rw (within_apex-apex name a s) at w),
)

-- every apex that is settled covers its own names, and so does the list
pub All-Covers :
    (apexes : List String)
    → AreSettled apexes
    → All (λ apex. Covers apexes (normalize_hostname apex)) apexes
All-Covers [] s = tt
All-Covers (a ∷ apexes) s = (
  Covers-self a apexes s.0,
  All-map (λ x. Covers apexes (normalize_hostname x))
      (λ x. Covers (a ∷ apexes) (normalize_hostname x))
      (λ x. Covers-cons a apexes (normalize_hostname x)) apexes (All-Covers apexes s.1),
)

module _ (parse : ParseTime) (fetch : Fetch) where
  hosts_of : String → Option Time → List String → List Host
  hosts_of apex seen [] = []
  hosts_of apex seen (name ∷ names) =
      let rest = hosts_of apex seen names in
      if not (within_apex name apex)
      then rest
      else record {
        hostname = normalize_hostname name;
        port = default_port;
        apex = apex;
        source = "crtname";
        first_seen = seen;
      }
        ∷ rest

  hosts_of_rows : String → List Record → List Host
  hosts_of_rows apex [] = []
  hosts_of_rows apex (row ∷ rows) =
      hosts_of apex (first_seen_time parse row) (hostnames row) ++ hosts_of_rows apex rows

  unfoldable pub discover_apex : String → String → Result (List Host)
  unfolding hosts_of_rows hosts_of
  discover_apex endpoint apex = do
    rows ← fetch endpoint apex
    ok (merge (hosts_of_rows apex rows ∷ []))

  discover_all : String → List String → Result (List Host)
  discover_all endpoint [] = ok []
  discover_all endpoint (apex ∷ apexes) = do
    hosts ← discover_apex endpoint (normalize_hostname apex)
    rest ← discover_all endpoint apexes
    ok (hosts ++ rest)

  -- `New(endpoint).Discover`
  unfoldable pub discover : String → List String → Result (List Host)
  unfolding discover_all
  discover endpoint apexes = do
    all ← discover_all (trim_right_slashes endpoint) apexes
    ok (merge (all ∷ []))

  module _ (apexes : List String) (settled : AreSettled apexes) where
    hosts_of-InScope :
        (apex : String) (seen : Option Time) (names : List String)
        → Covers apexes apex
        → All (InScope apexes) (hosts_of apex seen names)
    unfolding hosts_of
    hosts_of-InScope apex seen [] c = tt
    hosts_of-InScope apex seen (name ∷ names) c = elim (Bool-cases (within_apex name apex)) [
      | inl w ↦ rw w (
        c.1 (normalize_hostname name) (within_apex-normalize name apex c.0 w),
        hosts_of-InScope apex seen names c,
      )
      | inr o ↦ rw o (hosts_of-InScope apex seen names c)
    ]

    hosts_of_rows-InScope :
        (apex : String) (rows : List Record)
        → Covers apexes apex
        → All (InScope apexes) (hosts_of_rows apex rows)
    unfolding hosts_of_rows
    hosts_of_rows-InScope apex [] c = tt
    hosts_of_rows-InScope apex (row ∷ rows) c =
        All-append (InScope apexes) (hosts_of apex _ (hostnames row)) (hosts_of_rows apex rows)
          (hosts_of-InScope apex _ (hostnames row) c) (hosts_of_rows-InScope apex rows c)

    discover_apex-InScope :
        (endpoint apex : String) (found : List Host)
        → Covers apexes apex
        → discover_apex endpoint apex ≡ ok found
        → All (InScope apexes) found
    unfolding discover_apex
    discover_apex-InScope endpoint apex found c e =
        let (rows, _, e₂) = >>=-eq-ok (fetch endpoint apex) _ e in
        subst (All (InScope apexes)) (ok-injective e₂) (
          merge-InScope apexes (hosts_of_rows apex rows ∷ []) settled
            (hosts_of_rows-InScope apex rows c, tt))

    discover_all-InScope :
        (endpoint : String) (rest : List String) (found : List Host)
        → All (λ apex. Covers apexes (normalize_hostname apex)) rest
        → discover_all endpoint rest ≡ ok found
        → All (InScope apexes) found
    unfolding discover_all
    discover_all-InScope endpoint [] found c e = subst (All (InScope apexes)) (ok-injective e) tt
    discover_all-InScope endpoint (apex ∷ rest) found c e =
        let (hosts, e₁, e₂) = >>=-eq-ok (discover_apex endpoint (normalize_hostname apex)) _ e in
        let (more, e₃, e₄) = >>=-eq-ok (discover_all endpoint rest) (λ r. ok (hosts ++ r)) e₂ in
        subst (All (InScope apexes)) (ok-injective e₄) (
          All-append (InScope apexes) hosts more (discover_apex-InScope endpoint _ hosts c.0 e₁)
            (discover_all-InScope endpoint rest more c.1 e₃))

    -- Every host that the crt.name source returns for the apexes, if all are settled, lies within
    -- them, whatever names the service answers with.
    pub crt_name-InScope :
        (endpoint : String) (found : List Host)
        → discover endpoint apexes ≡ ok found
        → All (InScope apexes) found
    unfolding discover
    crt_name-InScope endpoint found e =
        let (all, e₁, e₂) = >>=-eq-ok (discover_all (trim_right_slashes endpoint) apexes) _ e in
        subst (All (InScope apexes)) (ok-injective e₂) (
          merge-InScope apexes (all ∷ []) settled
            (discover_all-InScope _ apexes all (All-Covers apexes settled) e₁, tt))
