-- ===== src/Discover/Manual.antt =====
-- internal/discover/manual/manual.go: the hosts that are named by hand.
use certinv.Prelude.{
  String, Option, none, some, List, [], ◌∷◌, ◌≡◌, refl, subst, ap, suc, length, ◌++◌, All, arith,
  Option-cases, inl, inr,
}
use certinv.Config.{ManualHost}
use certinv.Discover.{Host, normalize_hostname, normalized_port, apex_for}
use certinv.Discover.Scope.{InScope}
use certinv.Result.{Error, Result, ok, err, about, ◌>>=◌, >>=-eq-ok, ok-injective}

abbrev outside : String → Error
outside = about "manual host is outside configured apexes"

abbrev found_host : String → ManualHost → String → Host
found_host hostname host apex = record {
  hostname = hostname;
  port = normalized_port host.port;
  apex = apex;
  source = "manual";
  first_seen = none;
}

abbrev manual_host : String → ManualHost → Option String → Result Host
manual_host hostname host none = err (outside hostname)
manual_host hostname host (some apex) = ok (found_host hostname host apex)

unfoldable pub discover : List ManualHost → List String → Result (List Host)
discover [] apexes = ok []
discover (host ∷ hosts) apexes = do
  found ←
      manual_host (normalize_hostname host.hostname) host
        (apex_for (normalize_hostname host.hostname) apexes)
  rest ← discover hosts apexes
  ok (found ∷ rest)

manual_host-InScope :
    (name : String) (host : ManualHost) (apexes : List String) (h : Host)
    → manual_host name host (apex_for name apexes) ≡ ok h
    → InScope apexes h
manual_host-InScope name host apexes h e = elim (Option-cases (apex_for name apexes)) [
  | inl out ↦ cc (rw out at e)
  | inr (apex, at) ↦ (apex, ground (arith, at))
]

-- Every host that the manual source returns lies within the apexes.
pub manual-InScope :
    (hosts : List ManualHost) (apexes : List String) (found : List Host)
    → discover hosts apexes ≡ ok found
    → All (InScope apexes) found
unfolding discover
manual-InScope [] apexes found e = subst (All (InScope apexes)) (ok-injective e) tt
manual-InScope (m ∷ hosts) apexes found e =
    let name = normalize_hostname m.hostname in
    let (h, e₁, e₂) = >>=-eq-ok (manual_host name m (apex_for name apexes)) _ e in
    let (rest, e₃, e₄) = >>=-eq-ok (discover hosts apexes) (λ r. ok (h ∷ r)) e₂ in
    subst (All (InScope apexes)) (ok-injective e₄)
      (manual_host-InScope name m apexes h e₁, manual-InScope hosts apexes rest e₃)

-- a host of the configuration whose name, normalized, lies within the apexes
abbrev pub HasApex : List String → ManualHost → Type 0
HasApex apexes m = (apex : String) × (apex_for (normalize_hostname m.hostname) apexes ≡ some apex)

pub manual_total :
    (hosts : List ManualHost) (apexes : List String)
    → All (HasApex apexes) hosts
    → (found : List Host) × (discover hosts apexes ≡ ok found) × (length found ≡ length hosts)
unfolding discover
manual_total [] apexes h = ([], refl, refl)
manual_total (m ∷ hosts) apexes h =
    let (found, e, n) = manual_total hosts apexes h.1 in
    let first = found_host (normalize_hostname m.hostname) m h.0.0 in
    (first ∷ found, rw (h.0.1, e) refl, ap suc n)

-- One host outside the apexes makes the source fail, whatever the others are.
pub manual_outside :
    (before after : List ManualHost) (m : ManualHost) (apexes : List String)
    → apex_for (normalize_hostname m.hostname) apexes ≡ none
    → (e : Error) × (discover (before ++ m ∷ after) apexes ≡ err e)
unfolding discover
manual_outside [] after m apexes h = (outside (normalize_hostname m.hostname), rw h refl)
manual_outside (b ∷ before) after m apexes h =
    let (e, d) = manual_outside before after m apexes h in
    elim (Option-cases (apex_for (normalize_hostname b.hostname) apexes)) [
      | inl out ↦ (outside (normalize_hostname b.hostname), rw out refl)
      | inr (a, at) ↦ (e, rw (at, d) refl)
    ]
