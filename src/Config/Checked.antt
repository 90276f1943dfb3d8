-- ===== src/Config/Checked.antt =====
-- What a configuration that was loaded satisfies.
use certinv.Prelude.{
  pos, ◌≤ℤ◌, ltb_ℤ, String, Bool, true, false, ◌||◌, List, [], ◌∷◌, any, All, ◌==◌, ◌≡◌, refl, sym,
  ap, subst, inl, inr, arith, Bool-cases, eq_iff,
}
use certinv.Text.{trim_space}
use certinv.Result.{
  Error, message, about, Result, ok, err, fail_if, ◌>>◌, Result-cases, ok-injective, err-ne-ok,
}
use certinv.Config.{Float64, ManualHost, Config}
use certinv.Config.Loading.{
  NameLibrary, default_config, normalize, require, is_empty, etld_matches, validate_apex,
  validate_apexes, is_below, validate_manual_host, validate_manual_hosts, validate_discovery,
  validate, checked, load,
}

-- a check that passes did, and so did those behind it
>>-eq-ok :
    {A : Type 0} (r : Result (Unit {0})) (next : Result A) (a : A)
    → (r >> next) ≡ ok a
    → (r ≡ ok tt) × (next ≡ ok a)
>>-eq-ok (ok tt) next a h = (refl, h)
>>-eq-ok (err e) next a h = absurd (err-ne-ok h)

fail_if-eq-ok : (b : Bool) (e : Error) → fail_if b e ≡ ok tt → b ≡ false
fail_if-eq-ok true e h = absurd (err-ne-ok h)
fail_if-eq-ok false e h = refl

require-eq-ok : (b : Bool) (e : Error) → require b e ≡ ok tt → b ≡ true
require-eq-ok true e h = refl
require-eq-ok false e h = absurd (err-ne-ok h)

-- no apex stands twice, nor is one of those seen before
abbrev pub AreFresh : List String → List String → Type 0
AreFresh seen [] = Unit {0}
AreFresh seen (apex ∷ apexes) = (any (λ s. s == apex) seen ≡ false) × AreFresh (apex ∷ seen) apexes

-- a host of the configuration that was checked
abbrev pub IsCheckedHost : List String → ManualHost → Type 0
IsCheckedHost apexes m =
    ((m.hostname == "") ≡ false)
    × (pos 1 ≤ℤ m.port)
    × (m.port ≤ℤ pos 65535)
    × (any (is_below m.hostname) apexes ≡ true)

module _ (library : NameLibrary) where
  etld_matches-eq-ok :
      (apex : String) (r : Result String) → etld_matches apex r ≡ ok tt → r ≡ ok apex
  etld_matches-eq-ok apex (err e) h = absurd (err-ne-ok h)
  etld_matches-eq-ok apex (ok x) h =
      ap ok ((eq_iff x apex).0 (require-eq-ok (x == apex) (about "apex must be eTLD+1" apex) h))

  validate_apex-eq-ok :
      (apex : String) → validate_apex library apex ≡ ok tt → library.etld_plus_one apex ≡ ok apex
  unfolding validate_apex
  validate_apex-eq-ok apex h =
      let (_, h₁) = >>-eq-ok (fail_if (apex == "") (message "apex must not be empty")) _ tt h in
      let (_, h₂) =
        >>-eq-ok (fail_if (library.is_ip apex) (about "apex must be a domain name" apex)) _ tt h₁ in
      etld_matches-eq-ok apex (library.etld_plus_one apex) h₂

  validate_apexes-eq-ok :
      (seen apexes : List String)
      → validate_apexes library seen apexes ≡ ok tt
      → All (λ a. library.etld_plus_one a ≡ ok a) apexes × AreFresh seen apexes
  unfolding validate_apexes
  validate_apexes-eq-ok seen [] h = (tt, tt)
  validate_apexes-eq-ok seen (apex ∷ apexes) h =
      let (valid, h₁) = >>-eq-ok (validate_apex library apex) _ tt h in
      let (fresh, h₂) =
        >>-eq-ok (fail_if (any (λ s. s == apex) seen) (about "duplicate apex" apex)) _ tt h₁ in
      let (all, more) = validate_apexes-eq-ok (apex ∷ seen) apexes h₂ in
      ((validate_apex-eq-ok apex valid, all), (fail_if-eq-ok _ _ fresh, more))

  validate_manual_host-eq-ok :
      (apexes : List String) (m : ManualHost)
      → validate_manual_host library apexes m ≡ ok tt
      → IsCheckedHost apexes m
  unfolding validate_manual_host
  validate_manual_host-eq-ok apexes m h =
      let (named, h₁) = >>-eq-ok (fail_if (m.hostname == "") _) _ tt h in
      let (_, h₂) = >>-eq-ok (fail_if (library.is_ip m.hostname) _) _ tt h₁ in
      let (port, h₃) =
        >>-eq-ok (fail_if (ltb_ℤ m.port (pos 1) || ltb_ℤ (pos 65535) m.port) _) _ tt h₂ in
      let range = fail_if-eq-ok _ _ port in
      (fail_if-eq-ok _ _ named, ground (arith, range), ground (arith, range), require-eq-ok _ _ h₃)

  validate_manual_hosts-eq-ok :
      (apexes : List String) (hosts : List ManualHost)
      → validate_manual_hosts library apexes hosts ≡ ok tt
      → All (IsCheckedHost apexes) hosts
  unfolding validate_manual_hosts
  validate_manual_hosts-eq-ok apexes [] h = tt
  validate_manual_hosts-eq-ok apexes (m ∷ hosts) h =
      let (valid, h₁) = >>-eq-ok (validate_manual_host library apexes m) _ tt h in
      (validate_manual_host-eq-ok apexes m valid, validate_manual_hosts-eq-ok apexes hosts h₁)

module _ (float : Float64) (library : NameLibrary) where
  pub validate-eq-ok :
      (c : Config float.F)
      → validate float library c ≡ ok tt
      → (is_empty c.apexes ≡ false)
        × All (λ a. library.etld_plus_one a ≡ ok a) c.apexes
        × AreFresh [] c.apexes
        × All (IsCheckedHost c.apexes) c.manual_hosts
  unfolding validate
  validate-eq-ok c h =
      let (some_apex, h₁) = >>-eq-ok (fail_if (is_empty c.apexes) _) _ tt h in
      let (apexes, h₂) = >>-eq-ok (validate_apexes library [] c.apexes) _ tt h₁ in
      let (_, h₃) = >>-eq-ok (validate_discovery c) _ tt h₂ in
      let (hosts, h₄) = >>-eq-ok (validate_manual_hosts library c.apexes c.manual_hosts) _ tt h₃ in
      let (valid, fresh) = validate_apexes-eq-ok library [] c.apexes apexes in
      (
        fail_if-eq-ok _ _ some_apex,
        valid,
        fresh,
        validate_manual_hosts-eq-ok library c.apexes c.manual_hosts hosts,
      )

  checked-eq-ok :
      (decoded c : Config float.F)
      → checked float library decoded ≡ ok c
      → (c ≡ normalize decoded) × (validate float library c ≡ ok tt)
  unfolding checked
  checked-eq-ok decoded c h =
      let (valid, same) = >>-eq-ok (validate float library (normalize decoded)) _ c h in
      (
        sym (ok-injective same),
        subst (λ x. validate float library x ≡ ok tt) (ok-injective same) valid,
      )

  module _ {Data : Type 0} (read_file : String → Result Data)
      (unmarshal : Data → Config float.F → Result (Config float.F)) where
    pub load-eq-ok :
        (path : String) (c : Config float.F)
        → load float library read_file unmarshal path ≡ ok c
        → (decoded : Config float.F) × (c ≡ normalize decoded) × (validate float library c ≡ ok tt)
    unfolding load
    load-eq-ok path c h = elim (Bool-cases (trim_space path == "")) [
      | inl y ↦ absurd (err-ne-ok (rw y at h))
      | inr n ↦ elim (Result-cases (read_file path)) [
        | inl (e, bad) ↦ absurd (err-ne-ok (rw (n, bad) at h))
        | inr (found, good) ↦ elim (Result-cases (unmarshal found (default_config float))) [
          | inl (e, bad) ↦ absurd (err-ne-ok (rw (n, good, bad) at h))
          | inr (decoded, fine) ↦
              let (same, valid) = checked-eq-ok decoded c (rw (n, good, fine) at h) in
              (decoded, same, valid)
        ]
      ]
    ]

    -- A configuration that `Load` returns, whatever the file holds, names at least one apex, no apex
    -- twice, and only registrable ones; and each of its manual hosts has a name, a port from 1 to
    -- 65535, and is one of the apexes or ends with one behind a dot.
    pub load-IsChecked :
        (path : String) (c : Config float.F)
        → load float library read_file unmarshal path ≡ ok c
        → (is_empty c.apexes ≡ false)
          × All (λ a. library.etld_plus_one a ≡ ok a) c.apexes
          × AreFresh [] c.apexes
          × All (IsCheckedHost c.apexes) c.manual_hosts
    load-IsChecked path c h =
        let (decoded, same, valid) = load-eq-ok path c h in validate-eq-ok c valid
