-- ===== src/Outbox/Select.antt =====
-- Selecting the next record, and selecting again after it was written.
use Prim.Native.Nat.{Ordering}
use voxel_steward.Base.{
  ◌≡◌, refl, sym, ap, subst, ◌∙◌, if◌then◌else◌, String, Bool, true, false, ◌&&◌, Option, none,
  some, List, [], ◌∷◌, map, All, Bool-cases, inl, inr, arith, any, ◌⊎◌,
}
use mathlib.Core.Path.{ap₂}
use text.Mathlib.TextPositions.{eq_refl}
use voxel_steward.Outbox.{
  NotificationOutboxRecord, same_identity, replace_same, set_record, is_open, is_before, better,
  select,
}

-- The records of the map that have the identity of `r` are `r`.
abbrev pub IsOnly : NotificationOutboxRecord → List NotificationOutboxRecord → Type 0
IsOnly r = All (λ x. same_identity x r ≡ true → x ≡ r)

-- A record written over `r` keeps what the order of delivery goes by, and stays open.
abbrev pub KeepsPlace : NotificationOutboxRecord → NotificationOutboxRecord → Type 0
KeepsPlace r new =
    (new.run_id ≡ r.run_id)
    × (new.notification_id ≡ r.notification_id)
    × (new.message ≡ r.message)
    × (is_open r.status ≡ true)
    × (is_open new.status ≡ true)

abbrev map_best :
    NotificationOutboxRecord → Option NotificationOutboxRecord → Option NotificationOutboxRecord
map_best new none = none
map_best new (some x) = some (replace_same new x)

abbrev SamePlace : NotificationOutboxRecord → NotificationOutboxRecord → Type 0
SamePlace y x =
    (y.run_id ≡ x.run_id)
    × (y.notification_id ≡ x.notification_id)
    × (y.message ≡ x.message)
    × (is_open y.status ≡ is_open x.status)

replace_same-SamePlace :
    (r new x : NotificationOutboxRecord)
    → KeepsPlace r new
    → (same_identity x r ≡ true → x ≡ r)
    → SamePlace (replace_same new x) x
replace_same-SamePlace r new x k p = elim (Bool-cases (same_identity x new)) [
  | inl e ↦
      let named : same_identity x r ≡ true = rw (← k.0, ← k.1) e in
      rw (e, p named) (k.0, k.1, k.2, k.4 ∙ sym k.3)
  | inr e ↦ rw e (refl, refl, refl, refl)
]

choose-map :
    (new x : NotificationOutboxRecord) (m : Option NotificationOutboxRecord) (t u : Bool)
    → t ≡ u
    → (if t then some (replace_same new x) else map_best new m)
      ≡ map_best new (if u then some x else m)
choose-map new x m t true e = rw e
choose-map new x m t false e = rw e

module _ (collate : String → String → Ordering) where
  is_before-SamePlace :
      (a b c d : NotificationOutboxRecord)
      → SamePlace a c
      → SamePlace b d
      → is_before collate a b ≡ is_before collate c d
  unfolding is_before
  is_before-SamePlace a b c d p q = rw (p.0, p.1, p.2, q.0, q.1, q.2)

  better-replace :
      (r new x : NotificationOutboxRecord) (best : Option NotificationOutboxRecord)
      → KeepsPlace r new
      → (same_identity x r ≡ true → x ≡ r)
      → ((b : NotificationOutboxRecord) → best ≡ some b → same_identity b r ≡ true → b ≡ r)
      → better collate (map_best new best) (replace_same new x)
        ≡ map_best new (better collate best x)
  unfolding better
  better-replace r new x none k p q =
      choose-map new x none _ _ (replace_same-SamePlace r new x k p).3
  better-replace r new x (some b) k p q =
      let px = replace_same-SamePlace r new x k p in
      let pb = replace_same-SamePlace r new b k (q b refl) in
      choose-map new x (some b) _ _
        (ap₂ ◌&&◌ px.3 (is_before-SamePlace (replace_same new x) (replace_same new b) x b px pb))

  pub better-cases :
      (best : Option NotificationOutboxRecord) (x b : NotificationOutboxRecord)
      → better collate best x ≡ some b
      → (x ≡ b) ⊎ (best ≡ some b)
  unfolding better
  better-cases none x b e = ground arith
  better-cases (some c) x b e = ground arith

  better-only :
      (r x : NotificationOutboxRecord) (best : Option NotificationOutboxRecord)
      → (same_identity x r ≡ true → x ≡ r)
      → ((b : NotificationOutboxRecord) → best ≡ some b → same_identity b r ≡ true → b ≡ r)
      → (b : NotificationOutboxRecord) → better collate best x ≡ some b
      → same_identity b r ≡ true
      → b ≡ r
  better-only r x best p q b e = elim (better-cases best x b e) [
    | inl new ↦ subst (λ y. same_identity y r ≡ true → y ≡ r) new p
    | inr old ↦ q b old
  ]

  pub select-any :
      (f : NotificationOutboxRecord → Bool) (r : NotificationOutboxRecord)
      (best : Option NotificationOutboxRecord) (rs : List NotificationOutboxRecord)
      → f r ≡ true
      → select collate best rs ≡ some r
      → (best ≡ some r) ⊎ (any f rs ≡ true)
  unfolding select
  select-any f r best [] t e = inl e
  select-any f r best (x ∷ rs) t e = elim (select-any f r (better collate best x) rs t e) [
    | inr later ↦ inr (ground (arith, later))
    | inl here ↦ elim (better-cases best x r here) [
      | inl now ↦ inr (rw (now, t) refl)
      | inr before ↦ inl before
    ]
  ]

  select-replace :
      (r new : NotificationOutboxRecord) (best : Option NotificationOutboxRecord)
      (rs : List NotificationOutboxRecord)
      → KeepsPlace r new
      → IsOnly r rs
      → ((b : NotificationOutboxRecord) → best ≡ some b → same_identity b r ≡ true → b ≡ r)
      → select collate (map_best new best) (map (replace_same new) rs)
        ≡ map_best new (select collate best rs)
  unfolding select
  select-replace r new best [] k o q = refl
  select-replace r new best (x ∷ rs) k (p, o) q =
      ap (λ m. select collate m (map (replace_same new) rs)) (better-replace r new x best k p q)
      ∙ select-replace r new (better collate best x) rs k o (better-only r x best p q)

  -- After a record is written over the selected one, keeping its place, the written one is selected.
  pub select-set_record :
      (r new : NotificationOutboxRecord) (rs : List NotificationOutboxRecord)
      → KeepsPlace r new
      → IsOnly r rs
      → select collate none rs ≡ some r
      → select collate none (set_record rs new) ≡ some new
  unfolding set_record
  select-set_record r new rs k o e =
      let same : same_identity r new ≡ true =
        rw (k.0, k.1, eq_refl r.run_id) (eq_refl r.notification_id) in
      let there : any (λ x. same_identity x new) rs ≡ true =
        elim (select-any (λ x. same_identity x new) r none rs same e) [
          | inl h ↦ absurd (ground arith)
          | inr h ↦ h
        ] in
      rw there (
        select-replace r new none rs k o (λ b h. absurd (ground arith))
        ∙ (ap (map_best new) e ∙ (rw same refl)))
