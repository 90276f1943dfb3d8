-- ===== src/Discover/Merge.antt =====
-- What `Merge` keeps of the hosts that it is given.
use certinv.Prelude.{
  int_eq_iff, Bool, true, false, List, [], ◌∷◌, eq_iff, eq_refl, ◌≡◌, inl, inr, arith, Bool-cases,
  All, any,
}
use certinv.Discover.{
  Host, normalize_host, same_key, join_source, merge_host, merge_hosts, merge_groups, merge,
}

module _ (P : Host → Type 0) (join : (e h : Host) → P e → P (join_source e h)) where
  All-merge_host : (h : Host) (seen : List Host) → P h → All P seen → All P (merge_host h seen)
  unfolding merge_host
  All-merge_host h [] p a = (p, tt)
  All-merge_host h (e ∷ seen) p a = elim (Bool-cases (same_key e h)) [
    | inl y ↦ rw y (join e h a.0, a.1)
    | inr n ↦ rw n (a.0, All-merge_host h seen p a.1)
  ]

  module _ (keep : (h : Host) → P h → P (normalize_host h)) where
    All-merge_hosts :
        (seen hosts : List Host) → All P seen → All P hosts → All P (merge_hosts seen hosts)
    unfolding merge_hosts
    All-merge_hosts seen [] a b = a
    All-merge_hosts seen (h ∷ hosts) a b =
        All-merge_hosts (merge_host (normalize_host h) seen) hosts
          (All-merge_host (normalize_host h) seen (keep h b.0) a) b.1

    All-merge_groups :
        (seen : List Host) (groups : List (List Host))
        → All P seen
        → All (All P) groups
        → All P (merge_groups seen groups)
    unfolding merge_groups
    All-merge_groups seen [] a b = a
    All-merge_groups seen (hosts ∷ groups) a b =
        All-merge_groups (merge_hosts seen hosts) groups (All-merge_hosts seen hosts a b.0) b.1

    -- What holds of every host found, and is kept by normalizing the name and the port and by
    -- joining sources, holds of every merged host.
    pub All-merge : (groups : List (List Host)) → All (All P) groups → All P (merge groups)
    unfolding merge
    All-merge groups = All-merge_groups [] groups tt

-- no two hosts have one name and port
abbrev pub HasDistinctKeys : List Host → Type 0
HasDistinctKeys [] = Unit
HasDistinctKeys (h ∷ hosts) = All (λ x. same_key x h ≡ false) hosts × HasDistinctKeys hosts

same_key-join : (e h k : Host) → same_key (join_source e h) k ≡ same_key e k
same_key-join e h k = ground arith

same_key-join_right : (e h k : Host) → same_key k (join_source e h) ≡ same_key k e
same_key-join_right e h k = ground arith

same_key_swap : (a b : Host) → same_key a b ≡ false → same_key b a ≡ false
same_key_swap a b n = ground (
  arith,
  eq_iff a.hostname b.hostname,
  eq_iff b.hostname a.hostname,
  int_eq_iff a.port b.port,
  int_eq_iff b.port a.port,
)

same_key_refl : (a : Host) → same_key a a ≡ true
same_key_refl a = ground (arith, eq_refl a.hostname, int_eq_iff a.port a.port)

All-merge_host_key :
    (k h : Host) (seen : List Host)
    → same_key h k ≡ false
    → All (λ x. same_key x k ≡ false) seen
    → All (λ x. same_key x k ≡ false) (merge_host h seen)
All-merge_host_key k h seen p a =
    All-merge_host (λ x. same_key x k ≡ false) (λ e h' q. rw same_key-join q) h seen p a

All-key-join :
    (e h : Host) (seen : List Host)
    → All (λ x. same_key x e ≡ false) seen
    → All (λ x. same_key x (join_source e h) ≡ false) seen
All-key-join e h [] a = tt
All-key-join e h (x ∷ seen) a = (rw same_key-join_right a.0, All-key-join e h seen a.1)

merge_host-HasDistinctKeys :
    (h : Host) (seen : List Host) → HasDistinctKeys seen → HasDistinctKeys (merge_host h seen)
unfolding merge_host
merge_host-HasDistinctKeys h [] d = (tt, tt)
merge_host-HasDistinctKeys h (e ∷ seen) d = elim (Bool-cases (same_key e h)) [
  | inl y ↦ rw y (All-key-join e h seen d.0, d.1)
  | inr n ↦
      rw n (
        All-merge_host_key e h seen (same_key_swap e h n) d.0,
        merge_host-HasDistinctKeys h seen d.1,
      )
]

merge_hosts-HasDistinctKeys :
    (seen hosts : List Host) → HasDistinctKeys seen → HasDistinctKeys (merge_hosts seen hosts)
unfolding merge_hosts
merge_hosts-HasDistinctKeys seen [] d = d
merge_hosts-HasDistinctKeys seen (h ∷ hosts) d =
    merge_hosts-HasDistinctKeys (merge_host (normalize_host h) seen) hosts
      (merge_host-HasDistinctKeys (normalize_host h) seen d)

pub merge_groups-HasDistinctKeys :
    (seen : List Host) (groups : List (List Host))
    → HasDistinctKeys seen
    → HasDistinctKeys (merge_groups seen groups)
unfolding merge_groups
merge_groups-HasDistinctKeys seen [] d = d
merge_groups-HasDistinctKeys seen (hosts ∷ groups) d =
    merge_groups-HasDistinctKeys (merge_hosts seen hosts) groups
      (merge_hosts-HasDistinctKeys seen hosts d)

-- some host has the name and the port of `k`
abbrev pub has_key : Host → List Host → Bool
has_key k = any (λ x. same_key x k)

has_key-merge_host_self : (h : Host) (seen : List Host) → has_key h (merge_host h seen) ≡ true
unfolding merge_host any
has_key-merge_host_self h [] = rw (same_key_refl h)
has_key-merge_host_self h (e ∷ seen) =
    ground (arith, same_key-join e h h, has_key-merge_host_self h seen)

has_key-merge_host :
    (k h : Host) (seen : List Host) → has_key k seen ≡ true → has_key k (merge_host h seen) ≡ true
unfolding merge_host any
has_key-merge_host k h [] p = cc
has_key-merge_host k h (e ∷ seen) p =
    ground (arith, same_key-join e h k, has_key-merge_host k h seen)

has_key-merge_hosts :
    (k : Host) (seen hosts : List Host)
    → has_key k seen ≡ true
    → has_key k (merge_hosts seen hosts) ≡ true
unfolding merge_hosts
has_key-merge_hosts k seen [] p = p
has_key-merge_hosts k seen (h ∷ hosts) p =
    has_key-merge_hosts k (merge_host (normalize_host h) seen) hosts
      (has_key-merge_host k (normalize_host h) seen p)

All-has_key-merge_hosts :
    (seen hosts : List Host)
    → All (λ h. has_key (normalize_host h) (merge_hosts seen hosts) ≡ true) hosts
unfolding merge_hosts
All-has_key-merge_hosts seen [] = tt
All-has_key-merge_hosts seen (h ∷ hosts) = (
  has_key-merge_hosts (normalize_host h) (merge_host (normalize_host h) seen) hosts
      (has_key-merge_host_self (normalize_host h) seen),
  All-has_key-merge_hosts (merge_host (normalize_host h) seen) hosts,
)

has_key-merge_groups :
    (k : Host) (seen : List Host) (groups : List (List Host))
    → has_key k seen ≡ true
    → has_key k (merge_groups seen groups) ≡ true
unfolding merge_groups
has_key-merge_groups k seen [] p = p
has_key-merge_groups k seen (hosts ∷ groups) p =
    has_key-merge_groups k (merge_hosts seen hosts) groups (has_key-merge_hosts k seen hosts p)

All-has_key_mono :
    (seen hosts all : List Host)
    → All (λ h. has_key (normalize_host h) (merge_hosts seen hosts) ≡ true) all
    → (more : List (List Host))
    → All (λ h. has_key (normalize_host h) (merge_groups (merge_hosts seen hosts) more) ≡ true) all
All-has_key_mono seen hosts [] a more = tt
All-has_key_mono seen hosts (h ∷ all) a more = (
  has_key-merge_groups (normalize_host h) (merge_hosts seen hosts) more a.0,
  All-has_key_mono seen hosts all a.1 more,
)

All-has_key-merge_groups :
    (seen : List Host) (groups : List (List Host))
    → All (All (λ h. has_key (normalize_host h) (merge_groups seen groups) ≡ true)) groups
unfolding merge_groups
All-has_key-merge_groups seen [] = tt
All-has_key-merge_groups seen (hosts ∷ groups) = (
  All-has_key_mono seen hosts hosts (All-has_key-merge_hosts seen hosts) groups,
  All-has_key-merge_groups (merge_hosts seen hosts) groups,
)

-- The merged hosts have distinct pairs of name and port, and every host found is among them, under
-- its normalized name and port.
pub merge_exact :
    (groups : List (List Host))
    → HasDistinctKeys (merge groups)
      × All (All (λ h. has_key (normalize_host h) (merge groups) ≡ true)) groups
unfolding merge
merge_exact groups = (merge_groups-HasDistinctKeys [] groups tt, All-has_key-merge_groups [] groups)
