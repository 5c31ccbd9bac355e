-- ===== src/Outbox/Invariant.antt =====
-- What every operation of the outbox keeps.
use Prim.Native.Nat.{Ordering}
use mathlib.Core.Path.{ap₂}
use voxel_steward.Outbox.Select.{better-cases}
use voxel_steward.Base.{
  leb, ℕ, ◌≤◌, ◌≡◌, subst, ◌∙◌, String, Bool, true, false, ◌&&◌, Option, none, some, List, [], ◌∷◌,
  ◌++◌, map, All, All-append, str_eq, eq_iff, Bool-cases, Option-cases, inl, inr, arith, any,
  is_some, ok,
}
use voxel_steward.Outbox.{
  NotificationOutboxRecord, NotificationDeliveryStatus, delivered, Outbox, same_identity,
  replace_same, set_record, is_delivering, get_record, claimed_record, exhausted_record,
  delivered_record, failed_record, FailureStatus, failure_status, select, better, or_else,
  claim_selected, claim_next, mark_delivered, mark_failed, is_leased_to, is_available,
}

abbrev pub is_delivered : NotificationDeliveryStatus → Bool
is_delivered delivered = true
is_delivered _ = false

abbrev pub AttemptsAreBounded : Option ℕ → ℕ → Type 0
AttemptsAreBounded none n = n ≡ 0
AttemptsAreBounded (some m) n = n ≤ m

-- A lease is there exactly while a record is being delivered, the time of delivery exactly after it,
-- and the attempts stay within their limit.
pub record RecordIsValid (r : NotificationOutboxRecord) : Type 0 where
  pub owner : is_some r.lease_owner ≡ is_delivering r.status
  pub expiry : is_some r.lease_expires_at ≡ is_delivering r.status
  pub delivery : is_some r.delivered_at ≡ is_delivered r.status
  pub attempts : AttemptsAreBounded r.max_attempts r.attempts

-- No two records of one identity.
abbrev pub IsMap : List NotificationOutboxRecord → Type 0
IsMap [] = Unit
IsMap (r ∷ rs) = All (λ x. same_identity x r ≡ false) rs × IsMap rs

pub record OutboxIsValid (o : Outbox) : Type 0 where
  pub distinct : IsMap o.records
  pub valid : All RecordIsValid o.records

replace_same-names :
    (new x : NotificationOutboxRecord)
    → ((replace_same new x).run_id ≡ x.run_id)
      × ((replace_same new x).notification_id ≡ x.notification_id)
replace_same-names new x =
    ground (arith, eq_iff x.run_id new.run_id, eq_iff x.notification_id new.notification_id)

replace_same-identity :
    (new x y : NotificationOutboxRecord)
    → same_identity (replace_same new x) (replace_same new y) ≡ same_identity x y
replace_same-identity new x y =
    let (ax, bx) = replace_same-names new x in
    let (ay, by') = replace_same-names new y in ap₂ ◌&&◌ (ap₂ str_eq ax ay) (ap₂ str_eq bx by')

All-replace :
    (P : NotificationOutboxRecord → Type 0) (new : NotificationOutboxRecord)
    (rs : List NotificationOutboxRecord)
    → P new
    → All P rs
    → All P (map (replace_same new) rs)
All-replace P new [] p h = tt
All-replace P new (x ∷ rs) p (px, h) = elim (Bool-cases (same_identity x new)) [
  | inl e ↦ (rw e p, All-replace P new rs p h)
  | inr e ↦ (rw e px, All-replace P new rs p h)
]

IsMap-replace :
    (new : NotificationOutboxRecord) (rs : List NotificationOutboxRecord)
    → IsMap rs
    → IsMap (map (replace_same new) rs)
IsMap-replace new [] h = tt
IsMap-replace new (x ∷ rs) (d, h) = (apart new x rs d, IsMap-replace new rs h)
  where
    apart :
        (n y : NotificationOutboxRecord) (ys : List NotificationOutboxRecord)
        → All (λ z. same_identity z y ≡ false) ys
        → All (λ z. same_identity z (replace_same n y) ≡ false) (map (replace_same n) ys)
    apart n y [] u = tt
    apart n y (z ∷ ys) (u, v) = (replace_same-identity n z y ∙ u, apart n y ys v)

IsMap-append :
    (new : NotificationOutboxRecord) (rs : List NotificationOutboxRecord)
    → any (λ old. same_identity old new) rs ≡ false
    → IsMap rs
    → IsMap (rs ++ new ∷ [])
IsMap-append new [] e h = (tt, tt)
IsMap-append new (x ∷ rs) e (d, h) = (
  All-append (λ z. same_identity z x ≡ false) rs (new ∷ []) d (apart, tt),
  IsMap-append new rs (ground arith) h,
)
  where
    apart : same_identity new x ≡ false
    apart = ground (
      arith,
      eq_iff new.run_id x.run_id,
      eq_iff new.notification_id x.notification_id,
      eq_iff x.run_id new.run_id,
      eq_iff x.notification_id new.notification_id,
    )

-- Writing a valid record keeps the map valid.
pub set_record-IsValid :
    (o : Outbox) (new : NotificationOutboxRecord)
    → RecordIsValid new
    → OutboxIsValid o
    → OutboxIsValid (record o { records = set_record o.records new })
unfolding set_record
set_record-IsValid o new v w = elim (Bool-cases (any (λ old. same_identity old new) o.records)) [
  | inl e ↦ rw e (record {
    distinct = IsMap-replace new o.records w.distinct;
    valid = All-replace RecordIsValid new o.records v w.valid;
  })
  | inr e ↦ rw e (record {
    distinct = IsMap-append new o.records e w.distinct;
    valid = All-append RecordIsValid o.records (new ∷ []) w.valid (v, tt);
  })
]

-- What holds of every record holds of one that is looked up, and of one that is selected.
pub get_record-All :
    (P : NotificationOutboxRecord → Type 0) (rs : List NotificationOutboxRecord)
    (run notification : String) (r : NotificationOutboxRecord)
    → All P rs
    → get_record rs run notification ≡ some r
    → P r
unfolding get_record
get_record-All P [] run notification r h e = absurd (ground arith)
get_record-All P (x ∷ rs) run notification r (p, h) e =
    elim (Bool-cases (str_eq x.run_id run && str_eq x.notification_id notification)) [
      | inl t ↦ let same : x ≡ r = ground arith in subst P same p
      | inr t ↦ get_record-All P rs run notification r h (rw (t, get_record) at e)
    ]

exhausted_record-IsValid :
    (r : NotificationOutboxRecord) (now max : ℕ)
    → RecordIsValid r
    → is_available r now ≡ true
    → RecordIsValid (exhausted_record r max)
unfolding is_available
exhausted_record-IsValid r now max v e = ground arith

claimed_record-IsValid :
    (r : NotificationOutboxRecord) (worker : String) (now lease max : ℕ)
    → RecordIsValid r
    → is_available r now ≡ true
    → leb (or_else r.max_attempts max) r.attempts ≡ false
    → RecordIsValid (claimed_record r worker now lease max)
unfolding is_available
claimed_record-IsValid r worker now lease max v e t = ground arith

module _ (collate : String → String → Ordering) where
  better-All :
      (P : NotificationOutboxRecord → Type 0) (best : Option NotificationOutboxRecord)
      (x : NotificationOutboxRecord)
      → P x
      → ((b : NotificationOutboxRecord) → best ≡ some b → P b)
      → (b : NotificationOutboxRecord) → better collate best x ≡ some b
      → P b
  better-All P best x p q b e = elim (better-cases collate best x b e) [
    | inl new ↦ subst P new p
    | inr old ↦ q b old
  ]

  pub select-All :
      (P : NotificationOutboxRecord → Type 0) (best : Option NotificationOutboxRecord)
      (rs : List NotificationOutboxRecord) (r : NotificationOutboxRecord)
      → All P rs
      → ((b : NotificationOutboxRecord) → best ≡ some b → P b)
      → select collate best rs ≡ some r
      → P r
  unfolding select
  select-All P best [] r h q e = q r e
  select-All P best (x ∷ rs) r (p, h) q e =
      select-All P (better collate best x) rs r h (better-All P best x p q) e

  claim_selected-IsValid :
      (o : Outbox) (r : NotificationOutboxRecord) (worker : String) (now lease max : ℕ)
      → RecordIsValid r
      → OutboxIsValid o
      → OutboxIsValid (claim_selected collate o r worker now lease max).0
  unfolding claim_selected
  claim_selected-IsValid o r worker now lease max v w = elim (Bool-cases (is_available r now)) [
    | inr e ↦ rw e w
    | inl e ↦ elim (Bool-cases (leb (or_else r.max_attempts max) r.attempts)) [
      | inl t ↦
          rw (e, t)
            (set_record-IsValid o (exhausted_record r max) (exhausted_record-IsValid r now max v e)
              w)
      | inr t ↦
          rw (e, t)
            (set_record-IsValid o (claimed_record r worker now lease max)
              (claimed_record-IsValid r worker now lease max v e t) w)
    ]
  ]

  -- A claim that succeeds keeps a valid outbox valid, whichever record is selected and whatever
  -- becomes of it.
  pub claim_next-IsValid :
      (o o' : Outbox) (worker : String) (now lease max : ℕ)
      (claimed : Option NotificationOutboxRecord)
      → claim_next collate o worker now lease max ≡ ok (o', claimed)
      → OutboxIsValid o
      → OutboxIsValid o'
  unfolding claim_next
  claim_next-IsValid o o' worker now lease max claimed e w =
      elim (Option-cases (select collate none o.records)) [
        | inl h ↦ ground arith
        | inr (r, h) ↦
            let v =
              select-All RecordIsValid none o.records r w.valid (λ b k. absurd (ground arith)) h in
            let same : (claim_selected collate o r worker now lease max).0 ≡ o' = ground arith in
            subst OutboxIsValid same (claim_selected-IsValid o r worker now lease max v w)
      ]

delivered_record-IsValid :
    (r : NotificationOutboxRecord) (at : ℕ)
    → RecordIsValid r
    → RecordIsValid (delivered_record r at)
delivered_record-IsValid r at v = ground arith

-- Marking a delivery as made keeps a valid outbox valid, whether the lease was held or not.
pub mark_delivered-IsValid :
    (o o' : Outbox) (run notification worker : String) (at : ℕ) (marked : Bool)
    → mark_delivered o run notification worker at ≡ ok (o', marked)
    → OutboxIsValid o
    → OutboxIsValid o'
unfolding mark_delivered
mark_delivered-IsValid o o' run notification worker at marked e w =
    elim (Option-cases (get_record o.records run notification)) [
      | inl h ↦ ground arith
      | inr (r, h) ↦
          let v = get_record-All RecordIsValid o.records run notification r w.valid h in
          ground (
            arith,
            set_record-IsValid o (delivered_record r at) (delivered_record-IsValid r at v) w,
          )
    ]

failed_record-IsValid :
    (r : NotificationOutboxRecord) (worker : String) (at : ℕ) (next : Option ℕ) (code : String)
    → is_leased_to r worker ≡ true
    → RecordIsValid r
    → RecordIsValid (failed_record r (failure_status r) at next code)
failed_record-IsValid r worker at next code l v = ground arith

-- Marking a delivery as failed keeps a valid outbox valid, on the retry, the final failure and the
-- refusal.
pub mark_failed-IsValid :
    (o o' : Outbox) (run notification worker : String) (at : ℕ) (next : Option ℕ) (code : String)
    (status : Option FailureStatus)
    → mark_failed o run notification worker at next code ≡ ok (o', status)
    → OutboxIsValid o
    → OutboxIsValid o'
unfolding mark_failed
mark_failed-IsValid o o' run notification worker at next code status e w =
    elim (Option-cases (get_record o.records run notification)) [
      | inl h ↦ ground arith
      | inr (r, h) ↦
          let v = get_record-All RecordIsValid o.records run notification r w.valid h in
          elim (Bool-cases (is_leased_to r worker)) [
            | inr l ↦ ground arith
            | inl l ↦
                let kept =
                  set_record-IsValid o (failed_record r (failure_status r) at next code)
                    (failed_record-IsValid r worker at next code l v) w in
                let same : record o {
                  records = set_record o.records (failed_record r (failure_status r) at next code);
                }
                    ≡ o' =
                  ground arith in
                subst OutboxIsValid same kept
          ]
    ]
