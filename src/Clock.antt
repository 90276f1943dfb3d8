-- ===== src/Clock.antt =====
-- Go's `time` package as far as the program uses it. A `Time` counts the nanoseconds since the
-- zero time, and a `Duration` is an `int64` of nanoseconds. A timestamp column holds the text of
-- `formatTime` (internal/store/sqlite/sqlite.go), RFC 3339 in UTC with whole seconds; that text
-- has a fixed width and its order is that of the seconds, for which it stands here.
use certinv.Prelude.{
  ℕ, ◌+◌, ◌-◌, ◌*◌, ◌/◌, ◌%◌, ◌^◌, ◌≤◌, ◌≡◌, ℤ, pos, negsuc, pos_part, neg_part, sub_ℕ, ◌≤ℤ◌, leb_ℤ,
  ltb, leb, arith, if◌then◌else◌,
}

abbrev pub Time : Type 0
Time = ℕ

abbrev pub Duration : Type 0
Duration = ℤ

abbrev pub Stamp : Type 0
Stamp = ℕ

abbrev pub second : ℕ
second = 1_000_000_000

abbrev pub hour : ℕ
hour = 3600 * second

abbrev pub day : ℕ
day = 24 * hour

abbrev pub max_duration : ℕ
max_duration = 2 ^ 63 - 1

-- an integer that lies in the range of `int64`
abbrev pub IsInt64 : ℤ → Type 0
IsInt64 a = (pos_part a ≤ max_duration) × (neg_part a ≤ 2 ^ 63)

-- `Time.Sub` stops at the ends of the range
unfoldable pub saturate : ℤ → Duration
saturate (pos n) = if leb n max_duration then pos n else pos max_duration
saturate (negsuc n) = if leb n max_duration then negsuc n else negsuc max_duration

unfoldable pub sub : Time → Time → Duration
unfolding saturate
sub t u = saturate (sub_ℕ t u)

-- the `int64` that a product of integers wraps to
unfoldable pub wrap : ℤ → Duration
wrap a =
    let r = (pos_part a + (2 ^ 64 - neg_part a % 2 ^ 64)) % 2 ^ 64 in
    if ltb r (2 ^ 63) then pos r else negsuc (2 ^ 64 - r - 1)

pub wrap_of_IsInt64 : (a : ℤ) → IsInt64 a → wrap a ≡ a
unfolding wrap
wrap_of_IsInt64 (pos n) h = ground arith
wrap_of_IsInt64 (negsuc n) h = ground arith

pub sub-IsInt64 : (t u : Time) → IsInt64 (sub t u)
unfolding sub
sub-IsInt64 t u = ground arith

-- a later second operand leaves less
pub sub_mono : (t u v : Time) → u ≤ v → sub t v ≤ℤ sub t u
unfolding sub
sub_mono t u v h = ground arith

-- nothing is left exactly when the time is not after the other
pub sub-le-zero_iff : (t u : Time) → (leb_ℤ (sub t u) (pos 0) ≡ leb t u)
unfolding sub
sub-le-zero_iff t u = ground arith

unfoldable pub format_time : Time → Stamp
format_time t = t / second

unfoldable pub parse_time : Stamp → Time
parse_time s = s * second
