-- ===== src/WorldObservation/Steps.antt =====
-- The ways a dispatch of src/domain/world-observation/world-observation-store.ts can go.
use voxel_steward.Base.{
  ◌⊎◌, Result, ℕ, ◌≡◌, refl, true, false, Option, none, some, num_le, Bool-cases, inl, inr, ok, err,
  arith,
}
use voxel_steward.Base.Calendar.{Date, DateText, iso}
use voxel_steward.WorldObservation.{
  WorldObservationSnapshot, WorldObservationCommand, WorldObservationEvent, WorldObservationError,
}
use voxel_steward.WorldObservation.Commands.{valid_sequence, Next, next_observation}
use voxel_steward.WorldObservation.Store.{
  WorldObservationStore, settle, accept, dispatch, or_same, next_store,
}

ok_injective :
    {A : Type 0} (a b : A) → ◌≡◌ {A = Result WorldObservationError A} (ok a) (ok b) → a ≡ b
ok_injective a b e = ground arith

module _ (P : WorldObservationStore → Type 0) where
  settled_keeps :
      (o : WorldObservationStore) (c : WorldObservationCommand) (now : DateText)
      → P o
      → (n : Next)
      → ((next : Option WorldObservationSnapshot) → n ≡ ok next → P (settle o c now next).0)
      → P (or_same (elim n [ err e ↦ err e | ok next ↦ ok (settle o c now next) ]) o)
  unfolding or_same
  settled_keeps o c now k (err e) h = k
  settled_keeps o c now k (ok next) h = h next refl

  module _ (o : WorldObservationStore) (c : WorldObservationCommand) where
    accept_keeps :
        (d : Date)
        → P o
        → ((now : ℕ) (next : Option WorldObservationSnapshot)
            → next_observation o.max_blocks (iso now) o.snapshot c.action ≡ ok next
            → P (settle o c (iso now) next).0)
        → P (or_same (accept o c d) o)
    unfolding accept or_same
    accept_keeps none k h = k
    accept_keeps (some now) k h =
        settled_keeps o c (iso now) k (next_observation o.max_blocks (iso now) o.snapshot c.action)
          (h now)

    pub next_store_keeps :
        (d : Date)
        → P o
        → ((now : ℕ) (next : Option WorldObservationSnapshot)
            → next_observation o.max_blocks (iso now) o.snapshot c.action ≡ ok next
            → P (settle o c (iso now) next).0)
        → P (next_store o c d)
    unfolding dispatch next_store or_same
    next_store_keeps d k h = elim (Bool-cases o.closed) [
      | inl e ↦ simp e k
      | inr e ↦ elim (Bool-cases (valid_sequence c.sequence)) [
        | inl v ↦ elim (Bool-cases (num_le c.sequence o.last_accepted_sequence)) [
          | inl stale ↦ simp (e, v, stale) k
          | inr fresh ↦ simp (e, v, fresh) (accept_keeps d k h)
        ]
        | inr v ↦ simp (e, v) k
      ]
    ]

-- What an accepted command gives.
pub record IsSettled (o : WorldObservationStore) (c : WorldObservationCommand) (d : Date)
    (r : WorldObservationStore × Option WorldObservationEvent) : Type 0 where
  pub now : ℕ
  pub next : Option WorldObservationSnapshot
  pub given : next_observation o.max_blocks (iso now) o.snapshot c.action ≡ ok next
  pub clock : d ≡ some now
  pub active : o.closed ≡ false
  pub result : settle o c (iso now) next ≡ r

module _ (o : WorldObservationStore) (c : WorldObservationCommand)
    (r : WorldObservationStore × Option WorldObservationEvent) where
  settled-cases :
      (now : DateText) (n : Next)
      → (elim n [ err e ↦ err e | ok next ↦ ok (settle o c now next) ]) ≡ ok r
      → (next : Option WorldObservationSnapshot) × (n ≡ ok next) × (settle o c now next ≡ r)
  settled-cases now (err e) h = absurd (ground arith)
  settled-cases now (ok next) h = (next, refl, ok_injective (settle o c now next) r h)

  accept-IsSettled : (d : Date) → o.closed ≡ false → accept o c d ≡ ok r → IsSettled o c d r
  unfolding accept
  accept-IsSettled none n h = absurd (ground arith)
  accept-IsSettled (some now) n h =
      let (next, given, result) =
        settled-cases (iso now) (next_observation o.max_blocks (iso now) o.snapshot c.action) h in
      record { now = now; next = next; given = given; clock = refl; active = n; result = result }

  pub dispatch-cases :
      (d : Date)
      → dispatch o c d ≡ ok r
      → ((num_le c.sequence o.last_accepted_sequence ≡ true) × ((o, none) ≡ r)) ⊎ IsSettled o c d r
  unfolding dispatch
  dispatch-cases d h = elim (Bool-cases o.closed) [
    | inl e ↦ absurd (ground arith)
    | inr e ↦ elim (Bool-cases (valid_sequence c.sequence)) [
      | inl v ↦ elim (Bool-cases (num_le c.sequence o.last_accepted_sequence)) [
        | inl stale ↦ inl (stale, ok_injective (o, none) r (simp (e, v, stale) at h))
        | inr fresh ↦ inr (accept-IsSettled d e (simp (e, v, fresh) at h))
      ]
      | inr v ↦ absurd (ground arith)
    ]
  ]
