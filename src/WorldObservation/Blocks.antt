-- ===== src/WorldObservation/Blocks.antt =====
-- The list of observed blocks: bounded, one block to a position, the latest one last.
use voxel_steward.Base.{
  ℕ, ◌+◌, ◌≤◌, ◌<◌, ◌≡◌, refl, true, false, some, List, [], ◌∷◌, ◌++◌, length, length-append, All,
  All-append, eq_iff, Number, num, nan, infinity, neg_infinity, nat, num_eq, num_lt,
  is_safe_integer, Bool-cases, inl, inr, arith,
}
use voxel_steward.WorldObservation.{ObservedBlockPosition, ObservedBlock}
use voxel_steward.WorldObservation.Commands.{
  same_key, valid_position, find_block, without_block, drop_first, push_block,
}

-- No two blocks of one position.
abbrev pub AreDistinct : List ObservedBlock → Type 0
AreDistinct [] = Unit
AreDistinct (b ∷ bs) =
    All (λ (c : ObservedBlock). same_key b.position c.position ≡ false) bs × AreDistinct bs

length-without_block :
    (p : ObservedBlockPosition) (bs : List ObservedBlock) → length (without_block p bs) ≤ length bs
unfolding without_block
length-without_block p [] = omega arith
length-without_block p (b ∷ bs) = ground (arith, length-without_block p bs)

module _ (P : ObservedBlock → Type 0) where
  All-without_block :
      (p : ObservedBlockPosition) (bs : List ObservedBlock) → All P bs → All P (without_block p bs)
  unfolding without_block
  All-without_block p [] h = tt
  All-without_block p (b ∷ bs) h = elim (Bool-cases (same_key b.position p)) [
    | inl e ↦ rw e (All-without_block p bs h.1)
    | inr e ↦ rw e (h.0, All-without_block p bs h.1)
  ]

  All-drop_first : (bs : List ObservedBlock) → All P bs → All P (drop_first bs)
  All-drop_first [] h = tt
  All-drop_first (b ∷ bs) h = h.1

without_block-clear :
    (p : ObservedBlockPosition) (bs : List ObservedBlock)
    → All (λ (c : ObservedBlock). same_key c.position p ≡ false) (without_block p bs)
unfolding without_block
without_block-clear p [] = tt
without_block-clear p (b ∷ bs) = elim (Bool-cases (same_key b.position p)) [
  | inl e ↦ rw e (without_block-clear p bs)
  | inr e ↦ rw e (e, without_block-clear p bs)
]

AreDistinct-without_block :
    (p : ObservedBlockPosition) (bs : List ObservedBlock)
    → AreDistinct bs
    → AreDistinct (without_block p bs)
unfolding without_block
AreDistinct-without_block p [] h = tt
AreDistinct-without_block p (b ∷ bs) (h, d) = elim (Bool-cases (same_key b.position p)) [
  | inl e ↦ rw e (AreDistinct-without_block p bs d)
  | inr e ↦ rw e (
    All-without_block (λ c. same_key b.position c.position ≡ false) p bs h,
    AreDistinct-without_block p bs d,
  )
]

AreDistinct-push :
    (bs : List ObservedBlock) (b : ObservedBlock)
    → AreDistinct bs
    → All (λ (c : ObservedBlock). same_key c.position b.position ≡ false) bs
    → AreDistinct (bs ++ (b ∷ []))
AreDistinct-push [] b h k = (tt, tt)
AreDistinct-push (c ∷ bs) b (h, d) (e, k) = (
  All-append (λ (a : ObservedBlock). same_key c.position a.position ≡ false) bs (b ∷ []) h (e, tt),
  AreDistinct-push bs b d k,
)

AreDistinct-drop_first : (bs : List ObservedBlock) → AreDistinct bs → AreDistinct (drop_first bs)
AreDistinct-drop_first [] h = tt
AreDistinct-drop_first (b ∷ bs) h = h.1

find-push :
    (bs : List ObservedBlock) (b : ObservedBlock)
    → All (λ (c : ObservedBlock). same_key c.position b.position ≡ false) bs
    → same_key b.position b.position ≡ true
    → find_block b.position (bs ++ (b ∷ [])) ≡ some b
unfolding find_block
find-push [] b k same = rw same refl
find-push (c ∷ bs) b (e, k) same = rw e (find-push bs b k same)

pub num_eq_refl : (a : Number) → is_safe_integer a ≡ true → num_eq a a ≡ true
num_eq_refl (num f r) s = ground arith
num_eq_refl nan s = absurd (ground arith)
num_eq_refl infinity s = absurd (ground arith)
num_eq_refl neg_infinity s = absurd (ground arith)

same_key_refl : (p : ObservedBlockPosition) → valid_position p ≡ true → same_key p p ≡ true
unfolding same_key valid_position
same_key_refl p v =
    let x = num_eq_refl p.x (ground arith) in
    let y = num_eq_refl p.y (ground arith) in
    let z = num_eq_refl p.z (ground arith) in
    let d = (eq_iff p.dimension p.dimension).1 refl in ground arith

module _ (limit : ℕ) (bs : List ObservedBlock) (b : ObservedBlock) where
  length-rest : length (without_block b.position bs ++ (b ∷ [])) ≤ length bs + 1
  length-rest = omega (
    arith,
    length-append (without_block b.position bs) (b ∷ []),
    length-without_block b.position bs,
  )

  drop_first-shorter :
      (cs : List ObservedBlock)
      → limit < length cs
      → length cs ≤ limit + 1
      → length (drop_first cs) ≤ limit
  drop_first-shorter [] h k = omega arith
  drop_first-shorter (c ∷ cs) h k = omega arith

  pub length-push_block : length bs ≤ limit → length (push_block (nat limit) bs b) ≤ limit
  unfolding push_block
  length-push_block h =
      elim (Bool-cases
        (num_lt (nat limit) (nat (length (without_block b.position bs ++ (b ∷ [])))))) [
          | inl e ↦ rw e (
              drop_first-shorter (without_block b.position bs ++ (b ∷ [])) (ground arith)
                (omega (arith, length-rest)))
          | inr e ↦ rw e (ground arith)
        ]

  pub All-push_block :
      (P : ObservedBlock → Type 0) → All P bs → P b → All P (push_block (nat limit) bs b)
  unfolding push_block
  All-push_block P h k =
      let all : All P (without_block b.position bs ++ (b ∷ [])) =
        All-append P (without_block b.position bs) (b ∷ []) (All-without_block P b.position bs h)
          (k, tt) in
      elim (Bool-cases
        (num_lt (nat limit) (nat (length (without_block b.position bs ++ (b ∷ [])))))) [
          | inl e ↦ rw e (All-drop_first P _ all)
          | inr e ↦ rw e all
        ]

  pub AreDistinct-push_block : AreDistinct bs → AreDistinct (push_block (nat limit) bs b)
  unfolding push_block
  AreDistinct-push_block h =
      let all : AreDistinct (without_block b.position bs ++ (b ∷ [])) =
        AreDistinct-push (without_block b.position bs) b (AreDistinct-without_block b.position bs h)
          (without_block-clear b.position bs) in
      elim (Bool-cases
        (num_lt (nat limit) (nat (length (without_block b.position bs ++ (b ∷ [])))))) [
          | inl e ↦ rw e (AreDistinct-drop_first _ all)
          | inr e ↦ rw e all
        ]

  -- The block that was pushed is found, even where the first one is dropped for it.
  find-drop_first :
      (cs : List ObservedBlock)
      → 1 < length (cs ++ (b ∷ []))
      → All (λ (c : ObservedBlock). same_key c.position b.position ≡ false) cs
      → same_key b.position b.position ≡ true
      → find_block b.position (drop_first (cs ++ (b ∷ []))) ≡ some b
  find-drop_first [] h k same = absurd (omega arith)
  find-drop_first (c ∷ cs) h (e, k) same = find-push cs b k same

  pub find-push_block :
      1 ≤ limit
      → valid_position b.position ≡ true
      → find_block b.position (push_block (nat limit) bs b) ≡ some b
  unfolding push_block
  find-push_block l v =
      let same = same_key_refl b.position v in
      elim (Bool-cases
        (num_lt (nat limit) (nat (length (without_block b.position bs ++ (b ∷ [])))))) [
          | inl e ↦ rw e (
              find-drop_first (without_block b.position bs) (ground arith)
                (without_block-clear b.position bs) same)
          | inr e ↦
              rw e
                (find-push (without_block b.position bs) b (without_block-clear b.position bs) same)
        ]
