-- ===== src/Discover/ZoneFile.antt =====
-- internal/discover/zonefile/zonefile.go: hosts from DNS zone files. Opening and scanning a file is
-- a parameter, which gives its lines, and the error, if any, that ended the scan.
pub mod Scope
use certinv.Prelude.{
  ℕ, suc, ◌+◌, String, concat, Bool, true, false, ◌&&◌, ◌||◌, Option, none, some, List, [], ◌∷◌,
  ◌++◌, ◌==◌, ◌≡◌, inl, inr, refl, subst, sym, ap, ◌∙◌, All, All-append, Bool-cases, Option-cases,
  arith, if◌then◌else◌,
}
use certinv.Text.{trim_space, to_upper, has_prefix, has_suffix, before, fields, equal_fold, atoi}
use certinv.Discover.{Host, default_port, normalize_hostname, apex_for, merge}
use certinv.Result.{
  Error, message, about, at_line, wrap, Result, ok, err, ◌>>=◌, >>=-eq-ok, ok-injective,
}

pub record Parser : Type 0 where
  pub origin : String
  pub last_owner : String

-- the text in front of the first semicolon
unfoldable pub strip_comment : String → String
unfolding before
strip_comment line = before b';' line

unfoldable pub is_class : String → Bool
unfolding to_upper
is_class value = let v = to_upper value in v == "IN" || v == "CH" || v == "HS"

unfoldable pub is_ttl : String → Bool
unfolding atoi
is_ttl value = elim (atoi value) [ some n ↦ true | none ↦ false ]

is_address : String → Bool
unfolding to_upper
is_address field = let u = to_upper field in u == "A" || u == "AAAA" || u == "CNAME"

-- the fields behind the first: whether one of them is a type
has_type : List String → Bool
unfolding is_address
has_type [] = false
has_type (field ∷ rest) = is_address field || has_type rest

-- `ownerAndType`: the owner if some field is a type, `none` for the result `"", ""`. The caller
-- uses the type only to see that there is one.
unfoldable pub owner_and_type : Parser → List String → Option String
unfolding has_type is_class is_ttl
owner_and_type p [] = none
owner_and_type p (first ∷ rest) =
    if is_address first
    then some p.last_owner
    else if has_type rest
    then some (if is_ttl first || is_class first then p.last_owner else first)
    else none

unfoldable pub absolute_name : Parser → String → String
absolute_name p name =
    let raw = trim_space name in
    let short = normalize_hostname raw in
    if short == ""
    then ""
    else if short == "@"
    then p.origin
    else if has_suffix raw "."
    then normalize_hostname short
    else if p.origin == ""
    then short
    else normalize_hostname (concat short (concat "." p.origin))

abbrev pub zone_host : String → Option String → Option Host
zone_host hostname none = none
zone_host hostname (some apex) = some (record {
  hostname = hostname;
  port = default_port;
  apex = apex;
  source = "zone";
  first_seen = none;
})

-- a record line with the owner that it has, if it has a type
abbrev pub parse_record : Parser → List String → Option String → Option Host × Parser
parse_record p apexes none = (none, p)
parse_record p apexes (some owner) =
    let hostname = absolute_name p owner in
    (zone_host hostname (apex_for hostname apexes), record p { last_owner = owner })

-- the fields of a line behind `$ORIGIN`
abbrev pub parse_origin : Parser → List String → Result (Option Host × Parser)
parse_origin p [] = err (message "$ORIGIN requires a value")
parse_origin p (value ∷ rest) = ok (none, record p { origin = normalize_hostname value })

abbrev pub parse_fields : Parser → List String → List String → Result (Option Host × Parser)
parse_fields p apexes [] = ok (none, p)
parse_fields p apexes (first ∷ rest) =
    if equal_fold first "$ORIGIN"
    then parse_origin p rest
    else if has_prefix first "$"
    then ok (none, p)
    else ok (parse_record p apexes (owner_and_type p (first ∷ rest)))

-- The parser is a value: the state after a line that fails is not used again.
unfoldable pub parse_line : Parser → String → List String → Result (Option Host × Parser)
unfolding fields strip_comment owner_and_type absolute_name equal_fold has_prefix
parse_line p line apexes = parse_fields p apexes (fields (strip_comment line))

-- the lines of a file, and the error that ended the scan
pub record Scan : Type 0 where
  pub lines : List String
  pub failure : Option Error

abbrev pub Open : Type 0
Open = String → Result Scan

abbrev pub put : Option Host → List Host → List Host
put none hosts = hosts
put (some host) hosts = host ∷ hosts

-- `cancelled n`: the context is done before line `n + 1` is read
module _ (open_file : Open) (cancelled : ℕ → Bool) where
  scan_lines : String → List String → Parser → ℕ → List String → Option Error → Result (List Host)
  scan_lines path apexes p n [] none = ok []
  scan_lines path apexes p n [] (some e) = err (wrap (concat "read zone file " path) e)
  scan_lines path apexes p n (line ∷ lines) failure =
      if cancelled n then err (message "context canceled") else elim (parse_line p line apexes) [
        | err e ↦ err (at_line (concat "parse zone file " path) (n + 1) e)
        | ok (host, q) ↦ do
          rest ← scan_lines path apexes q (n + 1) lines failure
          ok (put host rest)
      ]

  unfoldable pub discover_file : String → List String → Result (List Host)
  unfolding scan_lines
  discover_file path apexes = do
    scan ← open_file path
    hosts ←
        scan_lines path apexes (record { origin = ""; last_owner = "" }) 0 scan.lines scan.failure
    ok (merge (hosts ∷ []))

  discover_files : List String → List String → Result (List (List Host))
  discover_files [] apexes = ok []
  discover_files (path ∷ paths) apexes = do
    hosts ← discover_file path apexes
    groups ← discover_files paths apexes
    ok (hosts ∷ groups)

  -- `New(files).Discover`
  unfoldable pub discover : List String → List String → Result (List Host)
  unfolding discover_files
  discover files apexes = do groups ← discover_files files apexes; ok (merge groups)
