-- ===== src/Discover/ZoneFile/Scope.antt =====
-- The scope of the zone file source, and what a line does to the parser.
use certinv.Prelude.{
  ℕ, ◌+◌, String, Bool, Option, none, some, List, [], ◌∷◌, ◌≡◌, inl, inr, subst, All, sym,
  Bool-cases, Option-cases,
}
use certinv.Text.{has_prefix, fields, equal_fold}
use certinv.Discover.{Host, apex_for, merge}
use certinv.Discover.Names.{AreSettled}
use certinv.Discover.Scope.{InScope, merge-InScope}
use certinv.Discover.ZoneFile.{
  Parser, Open, owner_and_type, absolute_name, zone_host, parse_origin, parse_record, parse_fields,
  parse_line, strip_comment, put, scan_lines, discover_file, discover_files, discover,
}
use certinv.Result.{Error, ok, Result-cases, >>=-eq-ok, ok-injective, err-ne-ok}

-- the host of a line, if it gives one, is in scope
abbrev InScope? : List String → Option Host → Type 0
InScope? apexes none = Unit
InScope? apexes (some h) = InScope apexes h

zone_host-InScope :
    (hostname : String) (apexes : List String)
    → InScope? apexes (zone_host hostname (apex_for hostname apexes))
zone_host-InScope hostname apexes = elim (Option-cases (apex_for hostname apexes)) [
  | inl out ↦ rw out tt
  | inr (a, at) ↦ subst (λ o. InScope? apexes (zone_host hostname o)) (sym at) (a, at)
]

parse_record-InScope :
    (p : Parser) (apexes : List String) (owner : Option String)
    → InScope? apexes (parse_record p apexes owner).0
parse_record-InScope p apexes none = tt
parse_record-InScope p apexes (some owner) = zone_host-InScope (absolute_name p owner) apexes

parse_origin-InScope :
    (p : Parser) (apexes rest : List String) (r : Option Host × Parser)
    → parse_origin p rest ≡ ok r
    → InScope? apexes r.0
parse_origin-InScope p apexes [] r e = absurd (err-ne-ok e)
parse_origin-InScope p apexes (v ∷ vs) r e = subst (λ x. InScope? apexes x.0) (ok-injective e) tt

parse_fields-InScope :
    (p : Parser) (apexes words : List String) (r : Option Host × Parser)
    → parse_fields p apexes words ≡ ok r
    → InScope? apexes r.0
parse_fields-InScope p apexes [] r e = subst (λ x. InScope? apexes x.0) (ok-injective e) tt
parse_fields-InScope p apexes (first ∷ rest) r e = elim (Bool-cases (equal_fold first "$ORIGIN")) [
  | inl y ↦ parse_origin-InScope p apexes rest r (rw y at e)
  | inr n ↦ elim (Bool-cases (has_prefix first "$")) [
    | inl y ↦ subst (λ x. InScope? apexes x.0) (ok-injective (rw (n, y) at e)) tt
    | inr m ↦
        subst (λ x. InScope? apexes x.0) (ok-injective (rw (n, m) at e))
          (parse_record-InScope p apexes (owner_and_type p (first ∷ rest)))
  ]
]

parse_line-InScope :
    (p : Parser) (line : String) (apexes : List String) (r : Option Host × Parser)
    → parse_line p line apexes ≡ ok r
    → InScope? apexes r.0
unfolding parse_line
parse_line-InScope p line apexes = parse_fields-InScope p apexes (fields (strip_comment line))

All-put :
    (apexes : List String) (host : Option Host) (hosts : List Host)
    → InScope? apexes host
    → All (InScope apexes) hosts
    → All (InScope apexes) (put host hosts)
All-put apexes none hosts i a = a
All-put apexes (some h) hosts i a = (i, a)

module _ (open_file : Open) (cancelled : ℕ → Bool) (apexes : List String)
    (settled : AreSettled apexes) where
  scan_lines-InScope :
      (path : String) (p : Parser) (n : ℕ) (lines : List String) (failure : Option Error)
      (found : List Host)
      → scan_lines open_file cancelled path apexes p n lines failure ≡ ok found
      → All (InScope apexes) found
  unfolding scan_lines
  scan_lines-InScope path p n [] none found e = subst (All (InScope apexes)) (ok-injective e) tt
  scan_lines-InScope path p n [] (some f) found e = absurd (err-ne-ok e)
  scan_lines-InScope path p n (line ∷ lines) failure found e = elim (Bool-cases (cancelled n)) [
    | inl y ↦ absurd (err-ne-ok (rw y at e))
    | inr go ↦ elim (Result-cases (parse_line p line apexes)) [
      | inl (x, bad) ↦ absurd (err-ne-ok (rw (go, bad) at e))
      | inr ((host, q), good) ↦
          let (rest, e₁, e₂) =
            >>=-eq-ok (scan_lines open_file cancelled path apexes q (n + 1) lines failure)
              (λ r. ok (put host r)) (rw (go, good) at e) in
          subst (All (InScope apexes)) (ok-injective e₂) (
            All-put apexes host rest (parse_line-InScope p line apexes (host, q) good)
              (scan_lines-InScope path q (n + 1) lines failure rest e₁))
    ]
  ]

  discover_file-InScope :
      (path : String) (found : List Host)
      → discover_file open_file cancelled path apexes ≡ ok found
      → All (InScope apexes) found
  unfolding discover_file
  discover_file-InScope path found e =
      let (scan, e₁, e₂) = >>=-eq-ok (open_file path) _ e in
      let (hosts, e₃, e₄) =
        >>=-eq-ok (scan_lines open_file cancelled path apexes _ 0 scan.lines scan.failure)
          (λ hs. ok (merge (hs ∷ []))) e₂ in
      subst (All (InScope apexes)) (ok-injective e₄) (
        merge-InScope apexes (hosts ∷ []) settled
          (scan_lines-InScope path _ 0 scan.lines scan.failure hosts e₃, tt))

  discover_files-InScope :
      (paths : List String) (groups : List (List Host))
      → discover_files open_file cancelled paths apexes ≡ ok groups
      → All (All (InScope apexes)) groups
  unfolding discover_files
  discover_files-InScope [] groups e = subst (All (All (InScope apexes))) (ok-injective e) tt
  discover_files-InScope (path ∷ paths) groups e =
      let (hosts, e₁, e₂) = >>=-eq-ok (discover_file open_file cancelled path apexes) _ e in
      let (rest, e₃, e₄) =
        >>=-eq-ok (discover_files open_file cancelled paths apexes) (λ gs. ok (hosts ∷ gs)) e₂ in
      subst (All (All (InScope apexes))) (ok-injective e₄)
        (discover_file-InScope path hosts e₁, discover_files-InScope paths rest e₃)

  -- Every host that the zone file source returns for the apexes, if all are settled, lies within
  -- them, whatever the files hold.
  pub zone_file-InScope :
      (files : List String) (found : List Host)
      → discover open_file cancelled files apexes ≡ ok found
      → All (InScope apexes) found
  unfolding discover
  zone_file-InScope files found e =
      let (groups, e₁, e₂) = >>=-eq-ok (discover_files open_file cancelled files apexes) _ e in
      subst (All (InScope apexes)) (ok-injective e₂)
        (merge-InScope apexes groups settled (discover_files-InScope files groups e₁))
