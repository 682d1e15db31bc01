-- ===== src/Common/Lists.antt =====
-- Lists measured and indexed by native numbers, under the library's names.
use Prim.Native.Nat.{ℕ, zero, suc, ◌+◌, ◌-◌, ◌≤◌, ◌<◌, min}
use mathlib.Core.Path.{◌≡◌, refl, ap, subst}
use mathlib.Core.Logic.{◌⊎◌, inl, inr, ◌↔◌, ◌≢◌}
use mathlib.Core.List.{List, [], ◌∷◌, ◌++◌}
use mathlib.Core.Option.{Option, none, some, some-injective}
use native.Mathlib.Omega.{arith}
use testunion.Common.Tests.{◌==◌, if◌then◌else◌}

module _ {ℓ} {A : Type ℓ} where
  abbrev pub length : List A → ℕ
  length [] = 0
  length (x ∷ xs) = suc (length xs)

  abbrev pub get_elem? : List A → ℕ → Option A
  get_elem? [] i = none
  get_elem? (x ∷ xs) zero = some x
  get_elem? (x ∷ xs) (suc i) = get_elem? xs i

  abbrev pub drop : ℕ → List A → List A
  drop zero xs = xs
  drop (suc n) [] = []
  drop (suc n) (x ∷ xs) = drop n xs

  pub length-append : (xs ys : List A) → length (xs ++ ys) ≡ length xs + length ys
  length-append [] ys = omega arith
  length-append (x ∷ xs) ys = omega (arith, length-append xs ys)

-- A predicate at every element of a list.
abbrev pub All {ℓ κ} : {A : Type ℓ} → (A → Type κ) → List A → Type κ
All P [] = Unit
All P (x ∷ xs) = P x × All P xs

-- A predicate at some element of a list, with the place; `In` says that the element is there.
abbrev pub Any {ℓ} : {A : Type ℓ} → (A → Type 0) → List A → Type 0
Any P [] = ⊥
Any P (x ∷ xs) = P x ⊎ Any P xs

abbrev pub In : {A : Type 0} → A → List A → Type 0
In a xs = Any (λ b. b ≡ a) xs

pub All-In {κ} : {A : Type 0} (P : A → Type κ) {a : A} (xs : List A) → All P xs → In a xs → P a
All-In P [] h i = absurd i
All-In P (x ∷ xs) h (inl e) = subst P e h.0
All-In P (x ∷ xs) h (inr i) = All-In P xs h.1 i

pub All-get_elem? {κ} :
    {A : Type 0} (P : A → Type κ) (xs : List A) (i : ℕ) {a : A}
    → All P xs
    → get_elem? xs i ≡ some a
    → P a
All-get_elem? P [] i h e = absurd (cc)
All-get_elem? P (x ∷ xs) zero h e = subst P (some-injective _ _ e) h.0
All-get_elem? P (x ∷ xs) (suc i) h e = All-get_elem? P xs i h.1 e

-- A predicate at every element, from index `i` on.
abbrev pub AllFrom {ℓ κ} : {A : Type ℓ} → (ℕ → A → Type κ) → ℕ → List A → Type κ
AllFrom P i [] = Unit
AllFrom P i (x ∷ xs) = P i x × AllFrom P (i + 1) xs

module _ {ℓ κ} {A : Type ℓ} (P : ℕ → A → Type κ) where
  pub AllFrom-get_elem? :
      (xs : List A) (i j : ℕ) {a : A} → AllFrom P i xs → get_elem? xs j ≡ some a → P (i + j) a
  AllFrom-get_elem? [] i j h e = absurd (cc)
  AllFrom-get_elem? (x ∷ xs) i zero {a} h e =
      let n : i + 0 ≡ i = omega arith in rw n (subst (P i) (some-injective _ _ e) h.0)
  AllFrom-get_elem? (x ∷ xs) i (suc j) h e =
      let n : i + suc j ≡ i + 1 + j = omega arith in rw n (AllFrom-get_elem? xs (i + 1) j h.1 e)

  pub get_elem?-AllFrom :
      (xs : List A) (i : ℕ)
      → ((j : ℕ) (a : A) → get_elem? xs j ≡ some a → P (i + j) a)
      → AllFrom P i xs
  get_elem?-AllFrom [] i h = tt
  get_elem?-AllFrom (x ∷ xs) i h = (
    let n : i + 0 ≡ i = omega arith in subst (λ (t : ℕ). P t x) n (h 0 x refl),
    get_elem?-AllFrom xs (i + 1) λ j a e.
        let n : i + suc j ≡ i + 1 + j = omega arith in subst (λ (t : ℕ). P t a) n (h (suc j) a e),
  )

  pub AllFrom-append :
      (xs ys : List A) (i : ℕ)
      → AllFrom P i (xs ++ ys) ↔ (AllFrom P i xs × AllFrom P (i + length xs) ys)
  AllFrom-append [] ys i = let n : i + 0 ≡ i = omega arith in rw n (λ h. (tt, h), λ h. h.1)
  AllFrom-append (x ∷ xs) ys i =
      let n : i + suc (length xs) ≡ i + 1 + length xs = omega arith in
      let ih = AllFrom-append xs ys (i + 1) in
      rw n (λ h. ((h.0, (ih.0 h.1).0), (ih.0 h.1).1), λ h. (h.0.0, ih.1 (h.0.1, h.1)))

module _ {ℓ} {A : Type ℓ} where
  abbrev pub take : ℕ → List A → List A
  take zero xs = []
  take (suc n) [] = []
  take (suc n) (x ∷ xs) = x ∷ take n xs

  pub take-append-drop : (n : ℕ) (xs : List A) → take n xs ++ drop n xs ≡ xs
  take-append-drop zero xs = refl
  take-append-drop (suc n) [] = refl
  take-append-drop (suc n) (x ∷ xs) = rw (take-append-drop n xs)

  pub length-drop : (n : ℕ) (xs : List A) → length (drop n xs) ≡ length xs - n
  length-drop zero xs = omega arith
  length-drop (suc n) [] = omega arith
  length-drop (suc n) (x ∷ xs) = omega (arith, length-drop n xs)

  pub length-take : (n : ℕ) (xs : List A) → length (take n xs) ≡ min n (length xs)
  length-take zero xs = omega arith
  length-take (suc n) [] = omega arith
  length-take (suc n) (x ∷ xs) = omega (arith, length-take n xs)

pub take_all {ℓ} : {A : Type ℓ} (n : ℕ) (xs : List A) → length xs ≤ n → take n xs ≡ xs
take_all zero [] h = refl
take_all zero (x ∷ xs) h = absurd (omega arith)
take_all (suc n) [] h = refl
take_all (suc n) (x ∷ xs) h = ap (λ l. x ∷ l) (take_all n xs (omega arith))

pub AllFrom-mono {ℓ κ μ} :
    {A : Type ℓ} (P : ℕ → A → Type κ) (Q : ℕ → A → Type μ) (xs : List A) (i : ℕ)
    → ((j : ℕ) (a : A) → i ≤ j → j < i + length xs → P j a → Q j a)
    → AllFrom P i xs
    → AllFrom Q i xs
AllFrom-mono P Q [] i h all = tt
AllFrom-mono P Q (x ∷ xs) i h all = (
  h i x (omega arith) (omega arith) all.0,
  AllFrom-mono P Q xs (i + 1) (λ j a p q. h j a (omega arith) (omega arith)) all.1,
)

pub get_elem?-lt {ℓ} :
    {A : Type ℓ} (xs : List A) (i : ℕ) {a : A} → get_elem? xs i ≡ some a → i < length xs
get_elem?-lt [] i e = absurd (cc)
get_elem?-lt (x ∷ xs) zero e = omega arith
get_elem?-lt (x ∷ xs) (suc i) e = omega (arith, get_elem?-lt xs i e)

pub lt-get_elem? {ℓ} :
    {A : Type ℓ} (xs : List A) (i : ℕ) → i < length xs → (a : A) × (get_elem? xs i ≡ some a)
lt-get_elem? [] i lt = absurd (omega arith)
lt-get_elem? (x ∷ xs) zero lt = (x, refl)
lt-get_elem? (x ∷ xs) (suc i) lt = lt-get_elem? xs i (omega arith)

module _ {ℓ} {A : Type ℓ} where
  -- A read past the end gives the default.
  abbrev pub get_or : List A → ℕ → A → A
  get_or [] i d = d
  get_or (x ∷ xs) zero d = x
  get_or (x ∷ xs) (suc i) d = get_or xs i d

  -- A write past the end changes nothing.
  abbrev pub set : List A → ℕ → A → List A
  set [] i v = []
  set (x ∷ xs) zero v = v ∷ xs
  set (x ∷ xs) (suc i) v = x ∷ set xs i v

  pub length-set : (xs : List A) (i : ℕ) (v : A) → length (set xs i v) ≡ length xs
  length-set [] i v = refl
  length-set (x ∷ xs) zero v = refl
  length-set (x ∷ xs) (suc i) v = ap suc (length-set xs i v)

  pub get_or-set_self :
      (xs : List A) (i : ℕ) (v d : A) → i < length xs → get_or (set xs i v) i d ≡ v
  get_or-set_self [] i v d h = absurd (omega arith)
  get_or-set_self (x ∷ xs) zero v d h = refl
  get_or-set_self (x ∷ xs) (suc i) v d h = get_or-set_self xs i v d (omega arith)

  pub get_or-set_ne :
      (xs : List A) (i j : ℕ) (v d : A) → i ≢ j → get_or (set xs i v) j d ≡ get_or xs j d
  get_or-set_ne [] i j v d h = refl
  get_or-set_ne (x ∷ xs) zero zero v d h = absurd (h refl)
  get_or-set_ne (x ∷ xs) zero (suc j) v d h = refl
  get_or-set_ne (x ∷ xs) (suc i) zero v d h = refl
  get_or-set_ne (x ∷ xs) (suc i) (suc j) v d h = get_or-set_ne xs i j v d (λ e. h (ap suc e))

  pub set-set : (xs : List A) (i : ℕ) (v w : A) → set (set xs i v) i w ≡ set xs i w
  set-set [] i v w = refl
  set-set (x ∷ xs) zero v w = refl
  set-set (x ∷ xs) (suc i) v w = ap (λ t. x ∷ t) (set-set xs i v w)

  pub set-get_or : (xs : List A) (i : ℕ) (d : A) → set xs i (get_or xs i d) ≡ xs
  set-get_or [] i d = refl
  set-get_or (x ∷ xs) zero d = refl
  set-get_or (x ∷ xs) (suc i) d = ap (λ t. x ∷ t) (set-get_or xs i d)

pub All-append {ℓ κ} :
    {A : Type ℓ} (P : A → Type κ) (xs ys : List A) → All P xs → All P ys → All P (xs ++ ys)
All-append P [] ys h k = k
All-append P (x ∷ xs) ys h k = (h.0, All-append P xs ys h.1 k)

pub All-split {ℓ κ} :
    {A : Type ℓ} (P : A → Type κ) (xs ys : List A) → All P (xs ++ ys) → All P xs × All P ys
All-split P [] ys h = (tt, h)
All-split P (x ∷ xs) ys h = let (l, r) = All-split P xs ys h.1 in ((h.0, l), r)

pub All-mono {ℓ κ μ} :
    {A : Type ℓ} (P : A → Type κ) (Q : A → Type μ) (xs : List A)
    → ((x : A) → P x → Q x)
    → All P xs
    → All Q xs
All-mono P Q [] f h = tt
All-mono P Q (x ∷ xs) f h = (f x h.0, All-mono P Q xs f h.1)

pub Any-iff {ℓ} :
    {A : Type ℓ} {P Q : A → Type 0} (xs : List A) → ((x : A) → P x ↔ Q x) → Any P xs ↔ Any Q xs
Any-iff [] f = ((λ i. i), λ i. i)
Any-iff (x ∷ xs) f =
    let rest = Any-iff xs f in
    (
      elim [ inl p ↦ inl ((f x).0 p) | inr i ↦ inr (rest.0 i) ],
      elim [ inl q ↦ inl ((f x).1 q) | inr i ↦ inr (rest.1 i) ],
    )

-- A list without the first entry of this number.
abbrev pub remove : ℕ → List ℕ → List ℕ
remove n [] = []
remove n (x ∷ xs) = if x == n then xs else x ∷ remove n xs
