-- ===== src/Outbox/Lease.antt =====
-- One delivery at a time: while a lease runs nothing is claimed.
use Prim.Native.Nat.{Ordering}
use voxel_steward.Base.{
  ℕ, ◌+◌, ◌<◌, ◌≡◌, refl, String, true, false, none, some, ok, leb, arith, Option-cases, inl, inr,
  All, List, [], ◌∷◌, eq_iff,
}
use voxel_steward.Outbox.{
  NotificationOutboxRecord, Outbox, same_identity, set_record, or_else, is_open, is_available,
  select, claimed_record, claim_selected, claim_next,
}
use voxel_steward.Outbox.Select.{IsOnly, KeepsPlace, select-set_record}
use voxel_steward.Outbox.Invariant.{IsMap, OutboxIsValid, select-All}

-- A successful claim took the selected record, which was available and had an attempt left.
pub claim_next-eq-some :
    (collate : String → String → Ordering) (o o' : Outbox) (worker : String) (now lease max : ℕ)
    (claimed : NotificationOutboxRecord)
    → claim_next collate o worker now lease max ≡ ok (o', some claimed)
    → (r : NotificationOutboxRecord) × (select collate none o.records ≡ some r)
      × (is_available r now ≡ true)
      × (leb (or_else r.max_attempts max) r.attempts ≡ false)
      × (claimed ≡ claimed_record r worker now lease max)
      × (o' ≡ record o { records = set_record o.records claimed })
      × (o.closed ≡ false)
unfolding claim_next claim_selected
claim_next-eq-some collate o o' worker now lease max claimed e =
    elim (Option-cases (select collate none o.records)) [
      | inl h ↦ absurd (ground arith)
      | inr (r, h) ↦ (r, h, ground arith, ground arith, ground arith, ground arith, ground arith)
    ]

All-zip :
    (P Q R : NotificationOutboxRecord → Type 0)
    → ((b : NotificationOutboxRecord) → P b → Q b → R b)
    → (rs : List NotificationOutboxRecord) → All P rs
    → All Q rs
    → All R rs
All-zip P Q R f [] p q = tt
All-zip P Q R f (x ∷ rs) (p, ps) (q, qs) = (f x p q, All-zip P Q R f rs ps qs)

other_is_not :
    (x b : NotificationOutboxRecord) → same_identity b x ≡ false → same_identity x b ≡ true → x ≡ b
other_is_not x b d e = absurd (
    ground (
      arith,
      eq_iff b.run_id x.run_id,
      eq_iff b.notification_id x.notification_id,
      eq_iff x.run_id b.run_id,
      eq_iff x.notification_id b.notification_id,
    ))

distinct-IsOnly :
    (x : NotificationOutboxRecord) (rs : List NotificationOutboxRecord)
    → All (λ z. same_identity z x ≡ false) rs
    → IsOnly x rs
distinct-IsOnly x [] h = tt
distinct-IsOnly x (z ∷ rs) (d, h) = ((λ e. cc (d, e)), distinct-IsOnly x rs h)

-- In a map every record is the only one of its identity.
pub IsMap-IsOnly : (rs : List NotificationOutboxRecord) → IsMap rs → All (λ b. IsOnly b rs) rs
IsMap-IsOnly [] h = tt
IsMap-IsOnly (x ∷ rs) (d, h) = (
  ((λ e. refl), distinct-IsOnly x rs d),
  All-zip (λ b. same_identity b x ≡ false) (λ b. IsOnly b rs) (λ b. IsOnly b (x ∷ rs))
      (λ b apart only. (other_is_not x b apart, only)) rs d (IsMap-IsOnly rs h),
)

pub available-open :
    (r : NotificationOutboxRecord) (now : ℕ) → is_available r now ≡ true → is_open r.status ≡ true
unfolding is_available
available-open r now e = ground arith

leased-unavailable :
    (r : NotificationOutboxRecord) (worker : String) (now lease max later : ℕ)
    → later < now + lease
    → is_available (claimed_record r worker now lease max) later ≡ false
unfolding is_available
leased-unavailable r worker now lease max later h = ground arith

claim_next-busy :
    (collate : String → String → Ordering) (o : Outbox) (first : NotificationOutboxRecord)
    (worker : String) (now lease max : ℕ)
    → o.closed ≡ false
    → select collate none o.records ≡ some first
    → is_available first now ≡ false
    → 0 < lease
    → 0 < max
    → claim_next collate o worker now lease max ≡ ok (o, none)
unfolding claim_next claim_selected
claim_next-busy collate o first worker now lease max c f b l m = ground arith

-- While the lease of a record claimed from a valid outbox runs, a claim with a positive lease and
-- limit gives no worker any record, the same or a later one, and leaves the outbox as it is:
-- deliveries keep their order and are made one at a time.
pub claim_next-exclusive :
    (collate : String → String → Ordering) (o o' : Outbox) (worker : String) (now lease max : ℕ)
    (claimed : NotificationOutboxRecord) (other : String) (later lease' max' : ℕ)
    → OutboxIsValid o
    → claim_next collate o worker now lease max ≡ ok (o', some claimed)
    → later < now + lease
    → 0 < lease'
    → 0 < max'
    → claim_next collate o' other later lease' max' ≡ ok (o', none)
claim_next-exclusive collate o o' worker now lease max claimed other later lease' max' w e h l m =
    let (r, found, available, left, same, written, opened) =
      claim_next-eq-some collate o o' worker now lease max claimed e in
    let only : IsOnly r o.records =
      select-All collate (λ b. IsOnly b o.records) none o.records r
        (IsMap-IsOnly o.records w.distinct) (λ b k. absurd (ground arith)) found in
    let place : KeepsPlace r (claimed_record r worker now lease max) =
      (refl, refl, refl, available-open r now available, refl) in
    let again =
      select-set_record collate r (claimed_record r worker now lease max) o.records place only
        found in
    let busy = leased-unavailable r worker now lease max later h in
    claim_next-busy collate o' (claimed_record r worker now lease max) other later lease' max'
      (rw written opened) (rw (written, same) again) busy l m
