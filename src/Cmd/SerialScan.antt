-- ===== src/Cmd/SerialScan.antt =====
-- `serialScanRunner`: the scheduler and the web interface start scans, and one runs at a time.
use certinv.Prelude.{
  ℕ, ◌+◌, nat_eq, any, Bool, true, false, ◌≡◌, refl, ap, ◌∙◌, List, [], ◌∷◌, arith, if◌then◌else◌,
}

-- The fields under the mutex, and what the program's threads are doing: the scans that run now,
-- each by its own number, and how many were begun.
pub record Runner : Type 0 where
  pub running : Bool
  pub active : List ℕ
  pub begun : ℕ

unfoldable pub start : Runner → Bool × Runner
start r = if r.running then (false, r) else (true, record r { running = true })

unfoldable pub finish : Runner → Runner
finish r = record r { running = false }

-- the scan that the caller of a successful `start` runs: on its own thread (`Run`), or on a new
-- one (`TriggerScan`)
abbrev begin : Runner → Runner
begin r = record r { active = r.begun ∷ r.active; begun = r.begun + 1 }

-- `Run` and `TriggerScan` up to the scan
unfoldable pub try_scan : Runner → Bool × Runner
unfolding start
try_scan r = let (ok, r') = start r in if ok then (true, begin r') else (false, r')

unfoldable pub without : ℕ → List ℕ → List ℕ
without k [] = []
without k (j ∷ js) = let rest = without k js in if nat_eq j k then rest else j ∷ rest

-- The steps that the threads may take, in any order: a scan is asked for, by the scheduler or by a
-- user, or a scan that runs returns, with an error or not, and its deferred `finish` is called.
pub data Event : Type 0 where
  scheduled triggered : Event
  returned : ℕ → Event

pub data Threads (r : Runner) : Event → Runner → Type 0 where
  run : {s : Runner} → (try_scan r).1 ≡ s → Threads r scheduled s
  trigger : {s : Runner} → (try_scan r).1 ≡ s → Threads r triggered s
  return :
      (k : ℕ) {s : Runner}
      → any (nat_eq k) r.active ≡ true
      → finish (record r { active = without k r.active }) ≡ s
      → Threads r (returned k) s

pub data Reach : Runner → Type 0 where
  new : Reach (record { running = false; active = []; begun = 0 })
  next : {r s : Runner} {e : Event} → Reach r → Threads r e s → Reach s

-- no scan runs and none is marked, or one scan runs and is marked
pub data IsExclusive (r : Runner) : Type 0 where
  idle : r.running ≡ false → r.active ≡ [] → IsExclusive r
  busy : (k : ℕ) → r.running ≡ true → r.active ≡ k ∷ [] → IsExclusive r

try_scan-IsExclusive : (r s : Runner) → (try_scan r).1 ≡ s → IsExclusive r → IsExclusive s
unfolding try_scan
try_scan-IsExclusive r s e (idle off none_active) = busy r.begun (ground arith) (ground arith)
try_scan-IsExclusive r s e (busy k on one) = busy k (ground arith) (ground arith)

without_self : (k j : ℕ) → any (nat_eq k) (j ∷ []) ≡ true → without k (j ∷ []) ≡ []
unfolding any without
without_self k j h = ground arith

not-any-nil : (k : ℕ) (js : List ℕ) → js ≡ [] → any (nat_eq k) js ≡ true → ⊥
unfolding any
not-any-nil k [] e h = cc h
not-any-nil k (j ∷ js) e h = cc e

return-IsExclusive :
    (k : ℕ) (r s : Runner)
    → any (nat_eq k) r.active ≡ true
    → finish (record r { active = without k r.active }) ≡ s
    → IsExclusive r
    → IsExclusive s
unfolding finish
return-IsExclusive k r s m e (idle off none_active) = absurd (not-any-nil k r.active none_active m)
return-IsExclusive k r s m e (busy j on one) =
    idle (ground arith) (ground (arith, without_self k j (rw one at m)))

Threads-IsExclusive : {r s : Runner} {e : Event} → Threads r e s → IsExclusive r → IsExclusive s
Threads-IsExclusive {r} {s} (run h) x = try_scan-IsExclusive r s h x
Threads-IsExclusive {r} {s} (trigger h) x = try_scan-IsExclusive r s h x
Threads-IsExclusive {r} {s} (return k m h) x = return-IsExclusive k r s m h x

-- Whatever order the requests for scans and the ends of scans come in, at most one scan runs, and
-- the flag says exactly whether one does.
pub Reach-IsExclusive : {r : Runner} → Reach r → IsExclusive r
Reach-IsExclusive new = idle refl refl
Reach-IsExclusive (next h t) = Threads-IsExclusive t (Reach-IsExclusive h)

-- A request for a scan that finds one running is refused and changes nothing; and once that scan
-- has returned, with an error or not, the next request is granted, and its scan is the only one.
pub scan_after_return :
    {r : Runner} (k : ℕ)
    → Reach r
    → any (nat_eq k) r.active ≡ true
    → (try_scan r ≡ (false, r))
      × ((try_scan (finish (record r { active = without k r.active }))).0 ≡ true)
      × ((try_scan (finish (record r { active = without k r.active }))).1.active ≡ r.begun ∷ [])
unfolding try_scan finish
scan_after_return {r} k h m = elim (Reach-IsExclusive h) [
  | idle off none_active ↦ absurd (not-any-nil k r.active none_active m)
  | busy j on one ↦ (
    rw on refl,
    refl,
    ap (λ js. r.begun ∷ without k js) one ∙ ap (◌∷◌ r.begun) (without_self k j (rw one at m)),
  )
]
