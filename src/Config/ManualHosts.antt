-- ===== src/Config/ManualHosts.antt =====
-- The manual hosts of a configuration that was loaded do not make a scan fail.
use certinv.Prelude.{
  some, String, concat, true, List, [], ◌∷◌, map, any, length, All, ◌==◌, ◌≡◌, refl, sym, subst,
  inl, inr, arith, Bool-cases, eq_iff,
}
use certinv.Text.Suffix.{ends_clean-has_suffix, dot-append}
use certinv.Text.Trim.{ends_clean-cons}
use certinv.Result.{Result, ok}
use certinv.Config.{Float64, ManualHost, Config}
use certinv.Config.Loading.{
  NameLibrary, normalize_name, normalize_manual_host, normalize, is_below, load,
}
use certinv.Discover.{Host, normalize_hostname, within_apex, apex_for}
use certinv.Discover.Manual
use certinv.Discover.Manual.{HasApex, manual_total}
use certinv.Discover.Names.{IsSettled, normalize_hostname_idem}
use certinv.Config.Checked.{IsCheckedHost, validate-eq-ok, load-eq-ok}

-- the name is a normalized one
abbrev IsNormalized : String → Type 0
IsNormalized name = (raw : String) × (name ≡ normalize_hostname raw)

normalized_fixed :
    (name : String) → IsNormalized name → IsSettled name → normalize_hostname name ≡ name
normalized_fixed name (raw, same) settled =
    subst (λ n. normalize_hostname n ≡ n) (sym same)
      (normalize_hostname_idem raw (subst IsSettled same settled))

is_below-IsSettled : (h a : String) → IsSettled a → is_below h a ≡ true → IsSettled h
is_below-IsSettled h a e below = elim (Bool-cases (h == a)) [
  | inl same ↦ rw ((eq_iff h a).0 same) e
  | inr other ↦
      ends_clean-has_suffix h (concat "." a) (ground arith)
        (rw dot-append (ends_clean-cons "." a e))
]

is_below-within_apex :
    (h a : String)
    → IsNormalized h
    → IsNormalized a
    → IsSettled a
    → is_below h a ≡ true
    → within_apex (normalize_hostname h) a ≡ true
unfolding within_apex
is_below-within_apex h a hn an e below =
    let fixed = normalized_fixed h hn (is_below-IsSettled h a e below) in
    rw (fixed, fixed, normalized_fixed a an e) below

is_below-apex_for :
    (h : String) (apexes : List String)
    → IsNormalized h
    → All IsNormalized apexes
    → All IsSettled apexes
    → any (is_below h) apexes ≡ true
    → (apex : String) × (apex_for (normalize_hostname h) apexes ≡ some apex)
unfolding any apex_for
is_below-apex_for h [] hn n s below = absurd (cc below)
is_below-apex_for h (a ∷ apexes) hn n s below =
    elim (Bool-cases (within_apex (normalize_hostname h) a)) [
      | inl y ↦ (normalize_hostname a, rw y)
      | inr o ↦
          let below_rest : any (is_below h) apexes ≡ true = elim (Bool-cases (is_below h a)) [
            | inl y ↦ absurd (cc (is_below-within_apex h a hn n.0 s.0 y, o))
            | inr m ↦ rw m at below
          ] in
          let (apex, e) = is_below-apex_for h apexes hn n.1 s.1 below_rest in (apex, rw o e)
    ]

normalized : (names : List String) → All IsNormalized (map normalize_name names)
unfolding normalize_hostname
normalized [] = tt
normalized (n ∷ names) = ((n, refl), normalized names)

hosts-HasApex :
    (apexes : List String) (hosts : List ManualHost)
    → All IsNormalized apexes
    → All IsSettled apexes
    → All (IsCheckedHost apexes) (map normalize_manual_host hosts)
    → All (HasApex apexes) (map normalize_manual_host hosts)
unfolding normalize_hostname
hosts-HasApex apexes [] n s valid = tt
hosts-HasApex apexes (m ∷ hosts) n s valid = (
  is_below-apex_for (normalize_name m.hostname) apexes (m.hostname, refl) n s valid.0.3,
  hosts-HasApex apexes hosts n s valid.1,
)

module _ (float : Float64) (library : NameLibrary) where
  module _ {Data : Type 0} (read_file : String → Result Data)
      (unmarshal : Data → Config float.F → Result (Config float.F)) where
    -- The manual source does not fail on a configuration that `Load` returns, where its apexes end
    -- neither with a dot nor with a blank: it returns one host for each manual host.
    pub load-manual_total :
        (path : String) (c : Config float.F)
        → load float library read_file unmarshal path ≡ ok c
        → All IsSettled c.apexes
        → (found : List Host) × (Manual.discover c.manual_hosts c.apexes ≡ ok found)
          × (length found ≡ length c.manual_hosts)
    unfolding normalize
    load-manual_total path c h settled =
        let (decoded, same, valid) = load-eq-ok float library read_file unmarshal path c h in
        let hosts = (validate-eq-ok float library c valid).3 in
        manual_total c.manual_hosts c.apexes (
          subst
            (λ (x : Config float.F).
              All IsSettled x.apexes
              → All (IsCheckedHost x.apexes) x.manual_hosts
              → All (HasApex x.apexes) x.manual_hosts)
            (sym same)
            (λ s v.
              hosts-HasApex (normalize decoded).apexes decoded.manual_hosts
                (normalized decoded.apexes) s v)
            settled hosts)
