-- ===== src/Cert.antt =====
-- internal/cert/cert.go: the metadata taken from the chain that a host presents.
use certinv.Prelude.{
  ℕ, suc, ◌/◌, String, Bool, false, not, ◌||◌, Option, none, some, List, [], ◌∷◌, ◌≡◌, ℤ, pos,
  negsuc, sub_ℕ, ◌*ℤ◌, ◌==◌, arith, if◌then◌else◌,
}
use certinv.Clock.{Time, Duration, day, IsInt64, sub, sub-IsInt64, wrap, wrap_of_IsInt64}
use certinv.Text.{trim_space, to_lower, trim_suffix}

-- the fields of `x509.Certificate` that the program reads
pub record X509 : Type 0 where
  pub raw : List ℕ
  pub subject_cn : String
  pub subject : String
  pub issuer_cn : String
  pub issuer : String
  pub issuer_organization : List String
  pub not_before : Time
  pub not_after : Time
  pub signature_algorithm : String
  pub public_key_algorithm : String
  pub public_key_bits : ℕ
  pub dns_names : List String

-- crypto/x509 and crypto/sha256
pub record Crypto : Type 0 where
  pub fingerprint : List ℕ → String
  pub signed_by : X509 → X509 → Bool
  pub verify_hostname : X509 → String → Bool

pub record Metadata : Type 0 where
  pub fingerprint : String
  pub subject_cn : String
  pub issuer_cn : String
  pub issuer_org : String
  pub not_before : Time
  pub not_after : Time
  pub lifetime_days : ℤ
  pub sig_algorithm : String
  pub key_algorithm : String
  pub key_bits : ℕ
  pub is_self_signed : Bool
  pub san_names : List String
  pub chain_complete : Bool
  pub hostname_match : Bool

-- `int(d.Hours() / 24)`, which cuts towards zero. It is exact here; in Go the hours are a float,
-- which is exact enough for the whole seconds that X.509 times differ by.
whole_days : Duration → ℤ
whole_days (pos n) = pos (n / day)
whole_days (negsuc n) = sub_ℕ 0 (suc n / day)

unfoldable pub lifetime_days : Time → Time → ℤ
unfolding whole_days
lifetime_days not_before not_after = whole_days (sub not_after not_before)

unfoldable pub first_string : List String → String
first_string [] = ""
first_string (v ∷ vs) = v

module _ (crypto : Crypto) where
  unfoldable pub is_self_signed : X509 → Bool
  is_self_signed cert = crypto.signed_by cert cert

  unfoldable pub hostname_matches : X509 → String → Bool
  hostname_matches cert hostname =
      let name = trim_suffix (to_lower (trim_space hostname)) "." in
      if name == "" then false else crypto.verify_hostname cert name

  -- the loop over neighbours, and then the test on the last certificate
  chain_links : X509 → List X509 → Bool
  unfolding is_self_signed
  chain_links last [] = is_self_signed last || not (last.subject == last.issuer)
  chain_links cert (next ∷ rest) =
      let later = chain_links next rest in if crypto.signed_by cert next then later else false

  unfoldable pub chain_complete : X509 → List X509 → Bool
  unfolding chain_links is_self_signed
  chain_complete leaf [] = is_self_signed leaf
  chain_complete leaf (next ∷ rest) = chain_links leaf (next ∷ rest)

  -- `none` is the error for an empty chain
  unfoldable pub from_chain : List X509 → String → Option Metadata
  unfolding first_string lifetime_days is_self_signed chain_complete hostname_matches
  from_chain [] hostname = none
  from_chain (leaf ∷ rest) hostname = some (record {
    fingerprint = crypto.fingerprint leaf.raw;
    subject_cn = leaf.subject_cn;
    issuer_cn = leaf.issuer_cn;
    issuer_org = first_string leaf.issuer_organization;
    not_before = leaf.not_before;
    not_after = leaf.not_after;
    lifetime_days = lifetime_days leaf.not_before leaf.not_after;
    sig_algorithm = leaf.signature_algorithm;
    key_algorithm = leaf.public_key_algorithm;
    key_bits = leaf.public_key_bits;
    is_self_signed = is_self_signed leaf;
    san_names = leaf.dns_names;
    chain_complete = chain_complete leaf rest;
    hostname_match = hostname_matches leaf hostname;
  })

whole_days-IsInt64 : (d : Duration) → IsInt64 d → IsInt64 (whole_days d *ℤ pos day)
unfolding whole_days ◌*ℤ◌
whole_days-IsInt64 (pos n) h = ground arith
whole_days-IsInt64 (negsuc n) h = ground arith

-- The lifetime in days is small enough for its nanoseconds to fit a `Duration`: the product that
-- the threshold windows start from never wraps.
pub lifetime_days_no_wrap :
    (not_before not_after : Time)
    → wrap (lifetime_days not_before not_after *ℤ pos day)
      ≡ lifetime_days not_before not_after *ℤ pos day
unfolding lifetime_days
lifetime_days_no_wrap not_before not_after =
    wrap_of_IsInt64 _
      (whole_days-IsInt64 (sub not_after not_before) (sub-IsInt64 not_after not_before))
