-- ===== src/Name/Laws.antt =====
-- Member ids: joining and taking apart, and which texts are member ids.
use objectlink_core_cpp.Prelude.{
  ℕ, suc, ◌+◌, ◌<◌, ◌≡◌, ◌≢◌, refl, ap, true, false, [], ◌∷◌, ◌++◌, none, some, Str, ◌==◌,
  if◌then◌else◌, arith, length, Bool-cases, ==_iff, inl, inr, Option-cases, sym, ◌∙◌,
}
use mathlib.Core.List.{append_assoc}
use objectlink_core_cpp.Name.{
  slash, find_first_of, find_last_of, drop, take_to, after, get_object_id, is_member_id,
  get_member_name, create_member_id,
}

-- How often a byte stands in a text.
abbrev pub count : ℕ → Str → ℕ
count c [] = 0
count c (x ∷ s) = if x == c then suc (count c s) else count c s

module _ (c : ℕ) where
  first-append : (s t : Str) → count c s ≡ 0 → find_first_of c (s ++ c ∷ t) ≡ some (length s)
  unfolding find_first_of
  first-append [] t h = ground arith
  first-append (x ∷ s) t h = ground (arith, first-append s t)

  last_none : (s : Str) → count c s ≡ 0 → find_last_of c s ≡ none
  unfolding find_last_of
  last_none [] h = refl
  last_none (x ∷ s) h = ground (arith, last_none s)

  last-append : (s t : Str) → count c t ≡ 0 → find_last_of c (s ++ c ∷ t) ≡ some (length s)
  unfolding find_last_of
  last-append [] t h = ground (arith, last_none t)
  last-append (x ∷ s) t h = ground (arith, last-append s t)

  first_none : (s : Str) → count c s ≡ 0 → find_first_of c s ≡ none
  unfolding find_first_of
  first_none [] h = refl
  first_none (x ∷ s) h = ground (arith, first_none s)

  -- A text with at least one `c` splits at the first one.
  split_first :
      (s : Str)
      → 0 < count c s
      → (a : Str) × (b : Str) × (s ≡ a ++ c ∷ b) × (count c a ≡ 0) × (count c s ≡ suc (count c b))
  split_first [] h = absurd (omega arith)
  split_first (x ∷ s) h = elim (Bool-cases (x == c)) [
    | inl hit ↦ ([], s, ground (arith, hit, ==_iff x c), refl, rw hit)
    | inr miss ↦
        let (a, b, e, none_before, rest) = split_first s (rw miss at h) in
        (x ∷ a, b, ap (◌∷◌ x) e, rw miss none_before, rw miss rest)
  ]

  last_some : (s : Str) → 0 < count c s → (k : ℕ) × (find_last_of c s ≡ some k)
  unfolding find_last_of
  last_some [] h = absurd (omega arith)
  last_some (x ∷ s) h = elim (Option-cases (find_last_of c s)) [
    | inl e ↦ (0, ground (arith, e, last_some s))
    | inr (k, e) ↦ (suc k, rw e)
  ]

  last-append-gt :
      (s t : Str) (k : ℕ)
      → find_last_of c t ≡ some k
      → find_last_of c (s ++ t) ≡ some (length s + k)
  unfolding find_last_of
  last-append-gt [] t k h = ground arith
  last-append-gt (x ∷ s) t k h = ground (arith, last-append-gt s t k h)

take_to-append : (s t : Str) → take_to (some (length s)) (s ++ t) ≡ s
unfolding take_to
take_to-append [] t = refl
take_to-append (x ∷ s) t = ap (◌∷◌ x) (take_to-append s t)

drop-append : (c : ℕ) (s t : Str) → drop (suc (length s)) (s ++ c ∷ t) ≡ t
unfolding drop
drop-append c [] t = refl
drop-append c (x ∷ s) t = drop-append c s t

create_member_id_lem : (o m : Str) → create_member_id o m ≡ o ++ slash ∷ m
unfolding create_member_id
create_member_id_lem o m = append_assoc o (slash ∷ []) m

-- The object id of a joined id is the object id, if that has no slash, whatever the name is.
pub get_object_id-create_member_id :
    (o m : Str) → count slash o ≡ 0 → get_object_id (create_member_id o m) ≡ o
unfolding get_object_id
get_object_id-create_member_id o m h =
    rw (create_member_id_lem, get_object_id, first-append slash o m h)
      (take_to-append o (slash ∷ m))

split_is_member :
    (a b : Str) → count slash a ≡ 0 → is_member_id (a ++ slash ∷ b) ≡ (count slash b == 0)
unfolding is_member_id
split_is_member a b h = elim (Bool-cases (count slash b == 0)) [
  | inl e ↦ ground (arith, e, first-append slash a b h, last-append slash a b)
  | inr e ↦
      let (k, ek) = last_some slash b (ground (arith, e)) in
      ground (
        arith,
        e,
        first-append slash a b h,
        last-append-gt slash a (slash ∷ b) (suc k),
        last-cons b k ek,
      )
]
  where
    last-cons :
        (b : Str) (k : ℕ)
        → find_last_of slash b ≡ some k
        → find_last_of slash (slash ∷ b) ≡ some (suc k)
    last-cons b k ek = rw (ek, find_last_of)

-- A text is a member id exactly when it holds one slash.
pub is_member_id-eq-count : (s : Str) → is_member_id s ≡ (count slash s == 1)
unfolding is_member_id
is_member_id-eq-count s = elim (Bool-cases (count slash s == 0)) [
  | inl e ↦ ground (arith, e, first_none slash s)
  | inr e ↦
      let (a, b, es, ea, eb) = split_first slash s (ground (arith, e)) in
      ground (arith, es, split_is_member a b ea, eb)
]

member_name :
    (o m : Str)
    → is_member_id (o ++ slash ∷ m) ≡ true
    → find_last_of slash (o ++ slash ∷ m) ≡ some (length o)
    → get_member_name (o ++ slash ∷ m) ≡ m
unfolding get_member_name after
member_name o m member last = ground (arith, member, last, drop-append slash o m)

-- Joining an object id and a name without slashes gives a member id that comes apart into the two.
pub create_member_id_roundtrip :
    (o m : Str)
    → count slash o ≡ 0
    → count slash m ≡ 0
    → (is_member_id (create_member_id o m) ≡ true)
      × (get_object_id (create_member_id o m) ≡ o)
      × (get_member_name (create_member_id o m) ≡ m)
create_member_id_roundtrip o m ho hm = (
  rw create_member_id_lem member,
  get_object_id-create_member_id o m ho,
  rw (create_member_id_lem) (member_name o m member (last-append slash o m hm)),
)
  where
    member : is_member_id (o ++ slash ∷ m) ≡ true
    member = ground (arith, split_is_member o m ho)

-- Every member id is joined from the object id and the name that it comes apart into.
pub create_member_id-get :
    (s : Str) → is_member_id s ≡ true → create_member_id (get_object_id s) (get_member_name s) ≡ s
create_member_id-get s h =
    let one : (count slash s == 1) ≡ true = rw is_member_id-eq-count at h in
    let (a, b, es, ea, eb) = split_first slash s (ground (arith, one)) in
    let parts = create_member_id_roundtrip a b ea (ground (arith, one, eb)) in joined a b es parts
  where
    joined :
        (a b : Str)
        → s ≡ a ++ slash ∷ b
        → (is_member_id (create_member_id a b) ≡ true)
          × (get_object_id (create_member_id a b) ≡ a)
          × (get_member_name (create_member_id a b) ≡ b)
        → create_member_id (get_object_id s) (get_member_name s) ≡ s
    joined a b es (_, eo, em) = rw (es, ← create_member_id_lem a b, eo, em)

-- A text with more than one slash is no member id, and its object id is not the text itself.
pub get_object_id_cuts :
    (s : Str) → 1 < count slash s → (is_member_id s ≡ false) × (get_object_id s ≢ s)
get_object_id_cuts s h = (
  ground (arith, is_member_id-eq-count s),
  λ e.
      let (a, b, es, ea, eb) = split_first slash s (omega arith) in
      let cut : get_object_id s ≡ a =
        rw (es, ← create_member_id_lem a b) (get_object_id-create_member_id a b ea) in
      let short : count slash s ≡ 0 = rw (sym e ∙ cut) ea in omega arith,
)
