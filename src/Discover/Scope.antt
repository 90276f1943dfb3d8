-- ===== src/Discover/Scope.antt =====
-- Hosts within the apexes, the program's scope, and what keeps them there.
use certinv.Prelude.{String, some, List, ◌∷◌, ◌==◌, ◌≡◌, inl, inr, All, Bool-cases}
use certinv.Discover.{Host, normalize_hostname, join_source, within_apex, apex_for, merge}
use certinv.Discover.Names.{AreSettled, apex_for-normalize}
use certinv.Discover.Merge.{All-merge}

-- the name lies within one of the apexes
abbrev pub InScopeName : List String → String → Type 0
InScopeName apexes name = (apex : String) × (apex_for name apexes ≡ some apex)

abbrev pub InScope : List String → Host → Type 0
InScope apexes host = InScopeName apexes host.hostname

pub InScopeName-cons :
    (a : String) (apexes : List String) (name : String)
    → InScopeName apexes name
    → InScopeName (a ∷ apexes) name
unfolding apex_for
InScopeName-cons a apexes name s = elim (Bool-cases (within_apex name a)) [
  | inl y ↦ (normalize_hostname a, rw y)
  | inr n ↦ (s.0, rw n s.1)
]

InScope-join :
    (apexes : List String) (e h : Host) → InScope apexes e → InScope apexes (join_source e h)
InScope-join apexes e h s = elim (Bool-cases (e.source == h.source)) [
  | inl y ↦ rw y s
  | inr n ↦ rw n s
]

pub merge-InScope :
    (apexes : List String) (groups : List (List Host))
    → AreSettled apexes
    → All (All (InScope apexes)) groups
    → All (InScope apexes) (merge groups)
merge-InScope apexes groups s =
    All-merge (InScope apexes) (InScope-join apexes)
      (λ h i. (i.0, apex_for-normalize h.hostname apexes i.0 s i.1)) groups
