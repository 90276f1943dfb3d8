-- ===== src/Ui/Pages/Scope.antt =====
-- The page and the scan read the settings of the apexes in the same way.
use certinv.Prelude.{
  String, Bool, true, false, List, [], ◌∷◌, any, ◌==◌, ◌≡◌, refl, inl, inr, Bool-cases,
}
use certinv.Discover.{normalize_hostname}
use certinv.Store.Schema.{ApexCrtNameRow}
use certinv.Ui.Pages.{apex_crt_name_enabled}

-- the setting is of the apex
abbrev is_of : String → ApexCrtNameRow → Bool
is_of a s = normalize_hostname s.apex == a

-- no two settings are of one apex
abbrev pub AreDistinct : List ApexCrtNameRow → Type 0
AreDistinct [] = Unit {0}
AreDistinct (s ∷ settings) =
    (any (is_of (normalize_hostname s.apex)) settings ≡ false) × AreDistinct settings

module _ (a : String) where
  enabled_without :
      (settings : List ApexCrtNameRow)
      → any (is_of (normalize_hostname a)) settings ≡ false
      → apex_crt_name_enabled a settings ≡ true
  unfolding any apex_crt_name_enabled
  enabled_without [] n = refl
  enabled_without (s ∷ settings) n = elim (Bool-cases (is_of (normalize_hostname a) s)) [
    | inl y ↦ absurd (cc (rw y at n))
    | inr m ↦ rw m (enabled_without settings (rw m at n))
  ]

-- the name is a normalized one
abbrev pub IsNormal : String → Type 0
IsNormal a = (normalize_hostname a ≡ a) × ((a == "") ≡ false)
