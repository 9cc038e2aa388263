-- ===== src/Tags/Rows.antt =====
-- Lemmas on the rows of the table device_tags and on the lists under the keys of the caches.
use cc_r_device_agent.Prelude.{
  ◌≡◌, refl, sym, ap, inl, inr, String, Bool, true, false, not, none, some, List, [], ◌∷◌, ◌++◌,
  any, str_eq, string_eq, eq_iff, arith, Bool-cases, Option-cases, if◌then◌else◌,
}
use cc_r_device_agent.Prelude.Dict
use cc_r_device_agent.Prelude.Dict.{Dict, get-insert, get-remove}
use cc_r_device_agent.Prelude.Sort.{keep}
use cc_r_device_agent.Tags.{DeviceTag}
use cc_r_device_agent.Tags.Assignments.{
  at_key, push_at, retain_at, retain_all, take_first, is_pair, is_device, is_tag,
}

module _ {ℓ} {A : Type ℓ} where
  pub keep-append : (p : A → Bool) (xs ys : List A) → keep p (xs ++ ys) ≡ keep p xs ++ keep p ys
  unfolding keep
  keep-append p [] ys = refl
  keep-append p (x ∷ xs) ys = elim (Bool-cases (p x)) [
    | inl e ↦ rw e (ap (λ z. x ∷ z) (keep-append p xs ys))
    | inr e ↦ rw e (keep-append p xs ys)
  ]

  pub keep_comm : (p q : A → Bool) (xs : List A) → keep p (keep q xs) ≡ keep q (keep p xs)
  unfolding keep
  keep_comm p q [] = refl
  keep_comm p q (x ∷ xs) = ground (arith, keep_comm p q xs)

  -- What is kept in the end passes the first test anyway.
  pub keep_absorb :
      (p q : A → Bool)
      → ((x : A) → p x ≡ true → q x ≡ true)
      → (xs : List A) → keep p (keep q xs) ≡ keep p xs
  unfolding keep
  keep_absorb p q h [] = refl
  keep_absorb p q h (x ∷ xs) = ground (arith, h x, keep_absorb p q h xs)

  pub keep_again : (p : A → Bool) (xs : List A) → keep p (keep p xs) ≡ keep p xs
  keep_again p xs = keep_absorb p p (λ x h. h) xs

  pub keep-not : (q : A → Bool) (xs : List A) → any q xs ≡ false → keep (λ x. not (q x)) xs ≡ xs
  unfolding keep
  keep-not q [] h = refl
  keep-not q (x ∷ xs) h = ground (arith, keep-not q xs)

  pub any-keep : (q p : A → Bool) (xs : List A) → any q xs ≡ false → any q (keep p xs) ≡ false
  unfolding keep
  any-keep q p [] h = refl
  any-keep q p (x ∷ xs) h = ground (arith, any-keep q p xs)

  pub keep_neither : (p : A → Bool) (xs : List A) → keep p (keep (λ x. not (p x)) xs) ≡ []
  unfolding keep
  keep_neither p [] = refl
  keep_neither p (x ∷ xs) = ground (arith, keep_neither p xs)

  -- Dropping what none of the wanted is.
  pub keep_apart :
      (p q : A → Bool) (xs : List A)
      → any q (keep p xs) ≡ false
      → keep q (keep (λ x. not (p x)) xs) ≡ keep q xs
  unfolding keep
  keep_apart p q [] h = refl
  keep_apart p q (x ∷ xs) h = ground (arith, keep_apart p q xs)

pub at_key-insert :
    (k j : String) (xs : List DeviceTag) (m : Dict String (List DeviceTag))
    → at_key j (Dict.insert k xs m) ≡ (if str_eq k j then xs else at_key j m)
unfolding at_key
at_key-insert k j xs m = ground (arith, get-insert k j xs m)

pub at_key-remove :
    (k j : String) (m : Dict String (List DeviceTag))
    → at_key j (Dict.remove k m) ≡ (if str_eq k j then [] else at_key j m)
unfolding at_key
at_key-remove k j m = ground (arith, get-remove k j m)

pub take_found :
    (device tag : String) (m : Dict String (List DeviceTag))
    → (elim (Dict.get device m) [ none ↦ none | some xs ↦ take_first (is_tag tag) xs ])
      ≡ take_first (is_tag tag) (at_key device m)
unfolding at_key take_first
take_found device tag m = elim (Option-cases (Dict.get device m)) [
  | inl e ↦ rw e refl
  | inr (xs, e) ↦ rw e refl
]

pub at_key-push_at :
    (k j : String) (x : DeviceTag) (m : Dict String (List DeviceTag))
    → at_key j (push_at k x m) ≡ (if str_eq k j then at_key j m ++ x ∷ [] else at_key j m)
unfolding at_key push_at
at_key-push_at k j x m = ground (arith, eq_iff k j, get-insert k j (at_key k m ++ x ∷ []) m)

pub at_key-retain_at :
    (k j : String) (p : DeviceTag → Bool) (m : Dict String (List DeviceTag))
    → at_key j (retain_at k p m) ≡ (if str_eq k j then keep p (at_key j m) else at_key j m)
unfolding at_key retain_at keep
at_key-retain_at k j p m = elim (Option-cases (Dict.get k m)) [
  | inl e ↦ ground (arith, eq_iff k j)
  | inr (xs, e) ↦ ground (arith, eq_iff k j, get-insert k j (keep p xs) m)
]

-- No two rows are about the same device and tag.
unfoldable pub IsUnique : List DeviceTag → Type 0
IsUnique [] = Unit
IsUnique (x ∷ xs) = (any (is_pair x.device_id x.tag_id) xs ≡ false) × IsUnique xs

pub keep-IsUnique :
    (p : DeviceTag → Bool) (xs : List DeviceTag) → IsUnique xs → IsUnique (keep p xs)
unfolding IsUnique keep
keep-IsUnique p [] u = tt
keep-IsUnique p (x ∷ xs) u = elim (Bool-cases (p x)) [
  | inl e ↦ rw e (any-keep (is_pair x.device_id x.tag_id) p xs u.0, keep-IsUnique p xs u.1)
  | inr e ↦ rw e (keep-IsUnique p xs u.1)
]

any-snoc :
    (x y : DeviceTag) (xs : List DeviceTag)
    → any (is_pair y.device_id y.tag_id) xs ≡ false
    → is_pair x.device_id x.tag_id y ≡ false
    → any (is_pair y.device_id y.tag_id) (xs ++ x ∷ []) ≡ false
any-snoc x y [] h n = ground (
  arith,
  eq_iff x.device_id y.device_id,
  eq_iff x.tag_id y.tag_id,
  eq_iff y.device_id x.device_id,
  eq_iff y.tag_id x.tag_id,
)
any-snoc x y (z ∷ xs) h n = ground (arith, any-snoc x y xs)

pub snoc-IsUnique :
    (x : DeviceTag) (xs : List DeviceTag)
    → any (is_pair x.device_id x.tag_id) xs ≡ false
    → IsUnique xs
    → IsUnique (xs ++ x ∷ [])
unfolding IsUnique
snoc-IsUnique x [] h u = (refl, tt)
snoc-IsUnique x (y ∷ xs) h u =
    (any-snoc x y xs u.0 (ground arith), snoc-IsUnique x xs (ground arith) u.1)

pair_of :
    {device tag : String} (x : DeviceTag) (xs : List DeviceTag)
    → x.device_id ≡ device
    → x.tag_id ≡ tag
    → any (is_pair x.device_id x.tag_id) xs ≡ false
    → any (is_pair device tag) xs ≡ false
pair_of x xs p q h = rw (sym p) (rw (sym q) h)

-- In unique rows, the first assignment of a tag to a device is the only one.
pub take_first_unique :
    (device tag : String) (xs : List DeviceTag)
    → IsUnique xs
    → any (is_pair device tag) xs ≡ true
    → (x : DeviceTag) × (x.tag_id ≡ tag)
      × (take_first (is_tag tag) (keep (is_device device) xs)
          ≡ some (x, keep (is_device device) (keep (λ y. not (is_pair device tag y)) xs)))
unfolding IsUnique keep take_first
take_first_unique device tag [] u h = absurd (ground arith)
take_first_unique device tag (x ∷ xs) u h = elim (Bool-cases (is_device device x)) [
  | inl d ↦ elim (Bool-cases (is_tag tag x)) [
    | inl e ↦ (
      x,
      (eq_iff x.tag_id tag).0 e,
      rw d (
          rw e (
            ap (λ ys. some (x, keep (is_device device) ys))
              (sym (
                keep-not (is_pair device tag) xs (
                  pair_of x xs ((eq_iff x.device_id device).0 d) ((eq_iff x.tag_id tag).0 e)
                    u.0))))),
    )
    | inr e ↦
        let (y, p, q) = take_first_unique device tag xs u.1 (ground arith) in
        (y, p, rw d (rw e (rw q (rw d refl))))
  ]
  | inr d ↦
      let (y, p, q) = take_first_unique device tag xs u.1 (ground arith) in (y, p, rw d (rw d q))
]

-- The tag under which a row stands is not left with the device.
pub at_key-retain_all :
    (device tag : String) (xs : List DeviceTag) (m : Dict String (List DeviceTag))
    → at_key tag (retain_all device xs m) ≡ (
        if any (is_tag tag) xs
        then keep (λ y. not (is_device device y)) (at_key tag m)
        else at_key tag m)
unfolding retain_all
at_key-retain_all device tag [] m = refl
at_key-retain_all device tag (x ∷ xs) m = ground (
  arith,
  keep_again (λ y. not (is_device device y)) (at_key tag m),
  at_key-retain_at x.tag_id tag (λ y. not (is_device device y)) m,
  at_key-retain_all device tag xs (retain_at x.tag_id (λ y. not (is_device device y)) m),
)
