-- ===== src/OutboxDispatcher/Count.antt =====
-- How many records of the outbox are open, and what the operations of
-- src/adapters/persistence/in-memory-notification-outbox-repository.ts make of their number.
use Prim.Native.Nat.{Ordering}
use text.Mathlib.TextPositions.{eq_refl}
use voxel_steward.Base.{
  ℕ, ◌+◌, ◌≤◌, ◌≡◌, refl, String, true, false, ◌&&◌, Option, none, some, List, [], ◌∷◌, map, any,
  Bool-cases, Option-cases, inl, inr, arith, eq_iff, ok, str_eq, if◌then◌else◌,
}
use voxel_steward.Outbox.{
  NotificationOutboxRecord, Outbox, same_identity, replace_same, set_record, is_open, is_leased_to,
  get_record, claim_next, claimed_record, mark_delivered, mark_failed, delivered_record,
  failed_record, FailureStatus, failure_status,
}
use voxel_steward.Outbox.Select.{IsOnly, select-any}
use voxel_steward.Outbox.Invariant.{OutboxIsValid, select-All, get_record-All}
use voxel_steward.Outbox.Lease.{claim_next-eq-some, IsMap-IsOnly, available-open}

abbrev pub one_open : NotificationOutboxRecord → ℕ
one_open r = if is_open r.status then 1 else 0

abbrev pub count_open : List NotificationOutboxRecord → ℕ
count_open [] = 0
count_open (r ∷ rs) = one_open r + count_open rs

-- `new` is written over the open record `r`.
abbrev Overwrites : NotificationOutboxRecord → NotificationOutboxRecord → Type 0
Overwrites new r =
    (new.run_id ≡ r.run_id) × (new.notification_id ≡ r.notification_id) × (is_open r.status ≡ true)

Overwrites-same : (new r : NotificationOutboxRecord) → Overwrites new r → same_identity r new ≡ true
Overwrites-same new r w = rw (w.0, w.1, eq_refl r.run_id) (eq_refl r.notification_id)

count_open-replace :
    (new r : NotificationOutboxRecord) (rs : List NotificationOutboxRecord)
    → Overwrites new r
    → IsOnly r rs
    → count_open (map (replace_same new) rs) ≤ count_open rs
count_open-replace new r [] w h = omega arith
count_open-replace new r (x ∷ rs) w (h, hs) = elim (Bool-cases (same_identity x new)) [
  | inl e ↦
      let named : same_identity x r ≡ true = rw (← w.0, ← w.1) e in
      let x_open : is_open x.status ≡ true = rw (h named) w.2 in
      rw (e, x_open) (ground (arith, count_open-replace new r rs w hs))
  | inr e ↦ rw e (omega (arith, count_open-replace new r rs w hs))
]

count_open-set_record :
    (new r : NotificationOutboxRecord) (rs : List NotificationOutboxRecord)
    → Overwrites new r
    → IsOnly r rs
    → any (λ old. same_identity old new) rs ≡ true
    → count_open (set_record rs new) ≤ count_open rs
unfolding set_record
count_open-set_record new r rs w only there = rw there (count_open-replace new r rs w only)

-- A claim opens no record.
pub count_open-claim_next :
    (collate : String → String → Ordering) (o p : Outbox) (worker : String) (now lease max : ℕ)
    (claimed : NotificationOutboxRecord)
    → OutboxIsValid o
    → claim_next collate o worker now lease max ≡ ok (p, some claimed)
    → count_open p.records ≤ count_open o.records
count_open-claim_next collate o p worker now lease max claimed v e =
    let (r, found, available, left, same, written, opened) =
      claim_next-eq-some collate o p worker now lease max claimed e in
    let only : IsOnly r o.records =
      select-All collate (λ b. IsOnly b o.records) none o.records r
        (IsMap-IsOnly o.records v.distinct) (λ b k. absurd (ground arith)) found in
    let new : NotificationOutboxRecord = claimed_record r worker now lease max in
    let w : Overwrites new r = (refl, refl, available-open r now available) in
    let there : any (λ x. same_identity x new) o.records ≡ true =
      elim (select-any collate (λ x. same_identity x new) r none o.records (Overwrites-same new r w)
        found) [ inl h ↦ absurd (ground arith) | inr h ↦ h ] in
    rw (written, same) (count_open-set_record new r o.records w only there)

module _ (run notification : String) where
  get_record-names :
      (rs : List NotificationOutboxRecord) (r : NotificationOutboxRecord)
      → get_record rs run notification ≡ some r
      → (r.run_id ≡ run) × (r.notification_id ≡ notification)
  unfolding get_record
  get_record-names [] r e = absurd (ground arith)
  get_record-names (x ∷ rs) r e =
      elim (Bool-cases (str_eq x.run_id run && str_eq x.notification_id notification)) [
        | inl t ↦ ground (arith, eq_iff x.run_id run, eq_iff x.notification_id notification)
        | inr t ↦ get_record-names rs r (rw (t, get_record) at e)
      ]

  -- Where the record that is looked up is written over, there is one to write over.
  any-get_record :
      (rs : List NotificationOutboxRecord) (r new : NotificationOutboxRecord)
      → Overwrites new r
      → get_record rs run notification ≡ some r
      → any (λ old. same_identity old new) rs ≡ true
  unfolding get_record
  any-get_record [] r new w e = absurd (ground arith)
  any-get_record (x ∷ rs) r new w e =
      elim (Bool-cases (str_eq x.run_id run && str_eq x.notification_id notification)) [
        | inl t ↦
            let same : x ≡ r = ground arith in
            let here : same_identity x new ≡ true = rw same (Overwrites-same new r w) in
            rw here refl
        | inr t ↦ ground (arith, any-get_record rs r new w (rw (t, get_record) at e))
      ]

  -- Writing a closed record over it leaves one open record less, or fewer.
  count_open-close :
      (rs : List NotificationOutboxRecord) (r new : NotificationOutboxRecord)
      → Overwrites new r
      → is_open new.status ≡ false
      → IsOnly r rs
      → get_record rs run notification ≡ some r
      → count_open (map (replace_same new) rs) + 1 ≤ count_open rs
  unfolding get_record
  count_open-close [] r new w c only e = absurd (ground arith)
  count_open-close (x ∷ rs) r new w c (h, hs) e =
      elim (Bool-cases (str_eq x.run_id run && str_eq x.notification_id notification)) [
        | inl t ↦
            let same : x ≡ r = ground arith in
            let here : same_identity x new ≡ true = rw same (Overwrites-same new r w) in
            let x_open : is_open x.status ≡ true = rw same w.2 in
            rw (here, x_open, c) (omega (arith, count_open-replace new r rs w hs))
        | inr t ↦
            let rest = count_open-close rs r new w c hs (rw (t, get_record) at e) in
            let first = count_open-replace new r (x ∷ []) w (h, tt) in omega (arith, rest, first)
      ]

IsOnly-get_record :
    (o : Outbox) (run notification : String) (r : NotificationOutboxRecord)
    → OutboxIsValid o
    → get_record o.records run notification ≡ some r
    → IsOnly r o.records
IsOnly-get_record o run notification r v e =
    get_record-All (λ b. IsOnly b o.records) o.records run notification r
      (IsMap-IsOnly o.records v.distinct) e

leased_open :
    (r : NotificationOutboxRecord) (worker : String)
    → is_leased_to r worker ≡ true
    → is_open r.status ≡ true
leased_open r worker l = ground arith

-- A delivery that is marked closes a record.
pub count_open-mark_delivered :
    (o p : Outbox) (run notification worker : String) (at : ℕ)
    → OutboxIsValid o
    → mark_delivered o run notification worker at ≡ ok (p, true)
    → count_open p.records + 1 ≤ count_open o.records
unfolding mark_delivered set_record
count_open-mark_delivered o p run notification worker at v e =
    elim (Option-cases (get_record o.records run notification)) [
      | inl h ↦ absurd (ground arith)
      | inr (r, h) ↦ elim (Bool-cases (is_leased_to r worker)) [
        | inr l ↦ absurd (ground arith)
        | inl l ↦
            let new : NotificationOutboxRecord = delivered_record r at in
            let w : Overwrites new r = (refl, refl, leased_open r worker l) in
            let there = any-get_record run notification o.records r new w h in
            let only = IsOnly-get_record o run notification r v h in
            let written : p.records ≡ set_record o.records new = ground arith in
            rw (written, there) (count_open-close run notification o.records r new w refl only h)
      ]
    ]

failed_record-names :
    (r : NotificationOutboxRecord) (status : FailureStatus) (at : ℕ) (next : Option ℕ)
    (code : String)
    → ((failed_record r status at next code).run_id ≡ r.run_id)
      × ((failed_record r status at next code).notification_id ≡ r.notification_id)
failed_record-names r FailureStatus.pending at next code = (refl, refl)
failed_record-names r FailureStatus.failed at next code = (refl, refl)

-- A failure opens no record.
pub count_open-mark_failed :
    (o p : Outbox) (run notification worker : String) (at : ℕ) (next : Option ℕ) (code : String)
    (status : Option FailureStatus)
    → OutboxIsValid o
    → mark_failed o run notification worker at next code ≡ ok (p, status)
    → count_open p.records ≤ count_open o.records
unfolding mark_failed
count_open-mark_failed o p run notification worker at next code status v e =
    elim (Option-cases (get_record o.records run notification)) [
      | inl h ↦ let same : p ≡ o = ground arith in rw same (omega arith)
      | inr (r, h) ↦ elim (Bool-cases (is_leased_to r worker)) [
        | inr l ↦ let same : p ≡ o = ground arith in rw same (omega arith)
        | inl l ↦
            let new : NotificationOutboxRecord = failed_record r (failure_status r) at next code in
            let names = failed_record-names r (failure_status r) at next code in
            let w : Overwrites new r = (names.0, names.1, leased_open r worker l) in
            let there = any-get_record run notification o.records r new w h in
            let only = IsOnly-get_record o run notification r v h in
            let written : p.records ≡ set_record o.records new = ground arith in
            rw written (count_open-set_record new r o.records w only there)
      ]
    ]

-- A delivery that is refused changes nothing.
pub mark_delivered-refused :
    (o p : Outbox) (run notification worker : String) (at : ℕ)
    → mark_delivered o run notification worker at ≡ ok (p, false)
    → p ≡ o
unfolding mark_delivered
mark_delivered-refused o p run notification worker at e =
    elim (Option-cases (get_record o.records run notification)) [
      | inl h ↦ ground arith
      | inr (r, h) ↦ elim (Bool-cases (is_leased_to r worker)) [
        | inr l ↦ ground arith
        | inl l ↦ absurd (ground arith)
      ]
    ]
