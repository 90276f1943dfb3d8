-- ===== src/Store/Certificates/States.antt =====
-- The stored state of a host's certificate is the one that was stored last.
use certinv.Prelude.{
  ℕ, nat_eq, String, true, false, ◌&&◌, find, if◌then◌else◌, ◌==◌, eq_iff, eq_refl, ◌≡◌, refl,
  subst, sym, ap, ◌∙◌, arith, inl, inr, Option-cases, Bool-cases,
}
use certinv.Clock.{Time, Stamp, format_time}
use certinv.Result.{ok}
use certinv.Store.Schema.{Db, StateRow}
use certinv.Store.Table.Laws.{find-upsert_self, find-upsert_other}
use certinv.Store.Exec.{Conn, Driver}
use certinv.Store.Exec.Laws.{statement-eq-ok}
use certinv.Store.Certificates.{
  is_state, put_state, state_of, get_certificate_state, set_certificate_state,
}

is_state_self :
    (h : ℕ) (fp : String) (s : String) (t : Stamp)
    → is_state h fp (record { host_id = h; fingerprint = fp; state = s; updated_at = t }) ≡ true
is_state_self h fp s t = ground (arith, eq_refl fp)

same_key_eq : (h k : ℕ) (fp gp : String) → nat_eq h k && fp == gp ≡ true → (h ≡ k) × (fp ≡ gp)
same_key_eq h k fp gp y = ground (arith, eq_iff fp gp)

-- one row has one key
is_state_other :
    (h k : ℕ) (fp gp : String) (r : StateRow)
    → is_state h fp r ≡ true
    → nat_eq h k && fp == gp ≡ false
    → is_state k gp r ≡ false
is_state_other h k fp gp r y n =
    ground (arith, eq_iff r.fingerprint fp, eq_iff r.fingerprint gp, eq_iff fp gp)

state_of-put_state_self :
    (h : ℕ) (fp s : String) (t : Stamp) (db : Db) → state_of h fp (put_state h fp s t db) ≡ s
unfolding state_of put_state
state_of-put_state_self h fp s t db =
    let found =
      find-upsert_self (is_state h fp)
        (record { host_id = h; fingerprint = fp; state = s; updated_at = t })
        (λ r. record r { state = s; updated_at = t }) db.certificate_states (is_state_self h fp s t)
        (λ r y. y) in
    elim (Option-cases (find (is_state h fp) db.certificate_states)) [
      | inl miss ↦ rw (found, state_of, miss) refl
      | inr (r, hit) ↦ rw (found, state_of, hit) refl
    ]

state_of-put_state_other :
    (h k : ℕ) (fp gp s : String) (t : Stamp) (db : Db)
    → nat_eq h k && fp == gp ≡ false
    → state_of k gp (put_state h fp s t db) ≡ state_of k gp db
unfolding state_of put_state
state_of-put_state_other h k fp gp s t db n =
    rw
      (
        state_of,
        find-upsert_other (is_state h fp) (is_state k gp)
            (record { host_id = h; fingerprint = fp; state = s; updated_at = t })
            (λ r. record r { state = s; updated_at = t }) db.certificate_states
            (is_state_other h k fp gp
              (record { host_id = h; fingerprint = fp; state = s; updated_at = t })
              (is_state_self h fp s t) n)
            (λ r y. is_state_other h k fp gp r y n) (λ r y. is_state_other h k fp gp r y n),
      )
      refl

-- After a successful `SetCertificateState`, a successful `GetCertificateState` returns the state that
-- was set, if it asks for the same host and fingerprint, and otherwise what was stored before.
pub get-set_certificate_state :
    (driver : Driver) (h k : ℕ) (fp gp s read : String) (now : Time) (c : Conn)
    → (set_certificate_state driver h fp s now c).0 ≡ ok tt
    → (get_certificate_state driver k gp (set_certificate_state driver h fp s now c).1).0 ≡ ok read
    → read ≡ (if nat_eq h k && fp == gp then s else state_of k gp c.db)
unfolding set_certificate_state get_certificate_state
get-set_certificate_state driver h k fp gp s read now c put got =
    let stored =
      statement-eq-ok driver "set certificate state"
        (λ db. (tt, put_state h fp s (format_time now) db)) c tt put in
    let asked =
      statement-eq-ok driver "get certificate state" (λ db. (state_of k gp db, db))
        (set_certificate_state driver h fp s now c).1 read got in
    let read_from = sym asked.0 ∙ ap (state_of k gp) stored.1 in
    elim (Bool-cases (nat_eq h k && fp == gp)) [
      | inl same ↦
          let (hk, fg) = same_key_eq h k fp gp same in
          let after = put_state h fp s (format_time now) c.db in
          rw same (
            read_from
            ∙ subst (λ j. state_of j gp after ≡ s) hk
                (subst (λ g. state_of h g after ≡ s) fg
                  (state_of-put_state_self h fp s (format_time now) c.db)))
      | inr other ↦
          rw other (read_from ∙ state_of-put_state_other h k fp gp s (format_time now) c.db other)
    ]
