-- ===== src/Ui/Forms/Checks.antt =====
-- What a form holds that passes the checks.
use certinv.Prelude.{
  ℤ, pos, ◌≤ℤ◌, leb_ℤ, String, true, false, ◌&&◌, Option, none, some, List, [], ◌∷◌, All, ◌==◌, ◌≡◌,
  sym, ap, ◌∙◌, inl, inr, arith, Bool-cases, eq_iff, eq_refl, subst, ◌↔◌,
}
use certinv.Text.{trim_space, atoi}
use certinv.Discover.{normalize_hostname, within_apex, apex_for, default_port}
use certinv.Result.{Result, ok, err, Result-cases, ok-injective, err-ne-ok}
use certinv.Ui.{Paths}
use certinv.Ui.Forms.{
  parse_port, port_in_range, validate_apex, registrable, below_root, resolve_allowed_zone_file,
  leaves,
}

abbrev pub InPortRange : ℤ → Type 0
InPortRange p = (pos 1 ≤ℤ p) × (p ≤ℤ pos 65535)

port_in_range-eq-ok : (n : Option ℤ) (p : ℤ) → port_in_range n ≡ ok p → InPortRange p
port_in_range-eq-ok none p h = absurd (err-ne-ok h)
port_in_range-eq-ok (some n) p h = elim (Bool-cases (leb_ℤ (pos 1) n && leb_ℤ n (pos 65535))) [
  | inl y ↦ let same : n ≡ p = ok-injective (rw y at h) in rw⁻¹ same (ground arith)
  | inr m ↦ absurd (err-ne-ok (rw m at h))
]

-- A port that a form may give, as it is parsed from any text, is a number from 1 to 65535.
pub parse_port-InPortRange : (value : String) (p : ℤ) → parse_port value ≡ ok p → InPortRange p
unfolding parse_port
parse_port-InPortRange value p h = elim (Bool-cases (trim_space value == "")) [
  | inl y ↦
      let same : default_port ≡ p = ok-injective (rw y at h) in rw⁻¹ same (omega arith, omega arith)
  | inr n ↦ port_in_range-eq-ok (atoi value) p (rw n at h)
]

registrable-eq-ok :
    (apex : String) (r : Result String) (a : String) → registrable apex r ≡ ok a → (r ≡ ok a)
registrable-eq-ok apex (err e) a h = absurd (err-ne-ok h)
registrable-eq-ok apex (ok x) a h = elim (Bool-cases (x == apex)) [
  | inl y ↦ ap ok ((eq_iff x apex).0 y ∙ ok-injective (rw y at h))
  | inr n ↦ absurd (err-ne-ok (rw n at h))
]

registrable_same :
    (apex : String) (r : Result String) (a : String) → registrable apex r ≡ ok a → (apex ≡ a)
registrable_same apex (err e) a h = absurd (err-ne-ok h)
registrable_same apex (ok x) a h = elim (Bool-cases (x == apex)) [
  | inl y ↦ ok-injective (rw y at h)
  | inr n ↦ absurd (err-ne-ok (rw n at h))
]

pub validate_apex-eq-ok :
    (etld : String → Result String) (value a : String)
    → validate_apex etld value ≡ ok a
    → etld a ≡ ok a
unfolding validate_apex
validate_apex-eq-ok etld value a h = elim (Bool-cases (normalize_hostname value == "")) [
  | inl y ↦ absurd (err-ne-ok (rw y at h))
  | inr n ↦
      let e = rw n at h in
      let same =
        registrable_same (normalize_hostname value) (etld (normalize_hostname value)) a e in
      ap etld (sym same)
      ∙ registrable-eq-ok (normalize_hostname value) (etld (normalize_hostname value)) a e
]

-- `validateApex` accepts exactly the texts whose normalized name is not empty and is what the library of
-- public suffixes gives for that name, and returns the normalized name.
pub validate_apex_exact :
    (etld : String → Result String) (value a : String)
    → (validate_apex etld value ≡ ok a)
      ↔ ((a ≡ normalize_hostname value) × ((a == "") ≡ false) × (etld a ≡ ok a))
unfolding validate_apex
validate_apex_exact etld value a = (
  λ h. elim (Bool-cases (normalize_hostname value == "")) [
    | inl y ↦ absurd (err-ne-ok (rw y at h))
    | inr n ↦
        let same =
          registrable_same (normalize_hostname value) (etld (normalize_hostname value)) a
            (rw n at h) in
        (sym same, subst (λ x. (x == "") ≡ false) same n, validate_apex-eq-ok etld value a h)
  ],
  λ (same, named, known).
      let empty : (normalize_hostname value == "") ≡ false =
        subst (λ x. (x == "") ≡ false) same named in
      let answer : etld (normalize_hostname value) ≡ ok (normalize_hostname value) =
        subst (λ x. etld x ≡ ok x) same known in
      rw (empty, answer, eq_refl (normalize_hostname value)) (ap ok (sym same)),
)

-- the path lies below the directory, as its path relative to it says
abbrev pub IsBelow : Paths → String → String → Type 0
IsBelow paths dir path =
    (root rel : String) × (paths.abs (trim_space dir) ≡ ok root)
    × (paths.rel root path ≡ ok rel)
    × (leaves rel ≡ false)

below_root-eq-ok :
    (paths : Paths) (root file path : String)
    → below_root paths root file ≡ ok path
    → (rel : String) × (paths.rel root path ≡ ok rel) × (leaves rel ≡ false)
unfolding below_root
below_root-eq-ok paths root file path h = elim (Result-cases (paths.rel root file)) [
  | inl (e, bad) ↦ absurd (err-ne-ok (rw bad at h))
  | inr (rel, good) ↦ elim (Bool-cases (leaves rel)) [
    | inl y ↦ absurd (err-ne-ok (rw (good, y) at h))
    | inr stays ↦ elim (Result-cases (paths.stat_is_dir file)) [
      | inl (e, bad) ↦ absurd (err-ne-ok (rw (good, stays, bad) at h))
      | inr (true, dir) ↦ absurd (err-ne-ok (rw (good, stays, dir) at h))
      | inr (false, found) ↦
          let same : file ≡ path = ok-injective (rw (good, stays, found) at h) in
          (rel, ap (paths.rel root) (sym same) ∙ good, stays)
    ]
  ]
]

-- A zone file that a form may give, whatever its text, lies below the allowed directory: that directory
-- has an absolute path, and the file's path relative to it neither leaves it nor is the directory itself.
pub resolve_allowed_zone_file-eq-ok :
    (paths : Paths) (dir raw path : String)
    → resolve_allowed_zone_file paths dir raw ≡ ok path
    → IsBelow paths dir path
unfolding resolve_allowed_zone_file
resolve_allowed_zone_file-eq-ok paths dir raw path h = elim (Bool-cases (trim_space dir == "")) [
  | inl y ↦ absurd (err-ne-ok (rw y at h))
  | inr n ↦ elim (Bool-cases (trim_space raw == "")) [
    | inl y ↦ absurd (err-ne-ok (rw (n, y) at h))
    | inr m ↦ elim (Bool-cases (paths.is_abs (trim_space raw))) [
      | inl y ↦ absurd (err-ne-ok (rw (n, m, y) at h))
      | inr k ↦ elim (Result-cases (paths.abs (trim_space dir))) [
        | inl (e, bad) ↦ absurd (err-ne-ok (rw (n, m, k, bad) at h))
        | inr (root, good) ↦
            elim (Result-cases (paths.abs (paths.join root (paths.clean (trim_space raw))))) [
              | inl (e, bad) ↦ absurd (err-ne-ok (rw (n, m, k, good, bad) at h))
              | inr (file, found) ↦
                  let (rel, is_rel, stays) =
                    below_root-eq-ok paths root file path (rw (n, m, k, good, found) at h) in
                  (root, rel, good, is_rel, stays)
            ]
      ]
    ]
  ]
]

-- the apex that a name is found within is one of the list
pub apex_for-eq-some :
    (Q : String → Type 0) (name x : String) (apexes : List String)
    → All Q apexes
    → apex_for name apexes ≡ some x
    → (a : String) × Q a × (within_apex name a ≡ true) × (x ≡ normalize_hostname a)
unfolding apex_for
apex_for-eq-some Q name x [] q h = absurd (cc h)
apex_for-eq-some Q name x (a ∷ apexes) q h = elim (Bool-cases (within_apex name a)) [
  | inl y ↦ (a, q.0, y, cc (rw y at h))
  | inr n ↦ apex_for-eq-some Q name x apexes q.1 (rw n at h)
]
