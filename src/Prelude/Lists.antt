-- ===== src/Prelude/Lists.antt =====
-- Lists measured and indexed by native numbers, under the library's names.
use Prim.Native.Nat.{ℕ, zero, suc, ◌+◌, ◌-◌, ◌<◌, ◌≤◌}
use mathlib.Core.Path.{◌≡◌, refl, ap, subst}
use native.Mathlib.Nat.{zero-add, suc-add}
use mathlib.Core.List.{List, [], ◌∷◌, ◌++◌, map}
use mathlib.Core.Option.{Option, none, some}
use native.Mathlib.Omega.{arith}

module _ {ℓ} {A : Type ℓ} where
  abbrev pub length : List A → ℕ
  length [] = 0
  length (x ∷ xs) = suc (length xs)

  abbrev pub get_elem? : List A → ℕ → Option A
  get_elem? [] i = none
  get_elem? (x ∷ xs) zero = some x
  get_elem? (x ∷ xs) (suc i) = get_elem? xs i

  abbrev pub get_or : List A → ℕ → A → A
  get_or [] i d = d
  get_or (x ∷ xs) zero d = x
  get_or (x ∷ xs) (suc i) d = get_or xs i d

  abbrev pub take : ℕ → List A → List A
  take zero xs = []
  take (suc n) [] = []
  take (suc n) (x ∷ xs) = x ∷ take n xs

  abbrev pub drop : ℕ → List A → List A
  drop zero xs = xs
  drop (suc n) [] = []
  drop (suc n) (x ∷ xs) = drop n xs

  abbrev pub replicate : ℕ → A → List A
  replicate zero a = []
  replicate (suc n) a = a ∷ replicate n a

  -- The last item, or `d` if there is none.
  abbrev pub last_or : List A → A → A
  last_or [] d = d
  last_or (x ∷ xs) d = last_or xs x

  -- What a predicate says of each item.
  abbrev pub All {κ} : (A → Type κ) → List A → Type κ
  All P [] = Unit
  All P (x ∷ xs) = P x × All P xs

  -- `ys` begins with all of `xs`.
  abbrev pub Extends : List A → List A → Type ℓ
  Extends xs ys = (extra : List A) × (ys ≡ xs ++ extra)

  pub length-append : (xs ys : List A) → length (xs ++ ys) ≡ length xs + length ys
  length-append [] ys = omega arith
  length-append (x ∷ xs) ys = omega (arith, length-append xs ys)

  pub length-replicate : (n : ℕ) (a : A) → length (replicate n a) ≡ n
  length-replicate zero a = refl
  length-replicate (suc n) a = ap suc (length-replicate n a)

  pub length-drop : (n : ℕ) (xs : List A) → length (drop n xs) ≡ length xs - n
  length-drop zero xs = omega arith
  length-drop (suc n) [] = omega arith
  length-drop (suc n) (x ∷ xs) = omega (arith, length-drop n xs)

  pub get_or-append_left :
      (xs ys : List A) (i : ℕ) (d : A) → i < length xs → get_or (xs ++ ys) i d ≡ get_or xs i d
  get_or-append_left [] ys i d h = absurd (omega arith)
  get_or-append_left (x ∷ xs) ys zero d h = refl
  get_or-append_left (x ∷ xs) ys (suc i) d h = get_or-append_left xs ys i d (omega arith)

  pub get_or-append_right :
      (xs ys : List A) (i : ℕ) (d : A) → get_or (xs ++ ys) (length xs + i) d ≡ get_or ys i d
  get_or-append_right [] ys i d = rw zero-add refl
  get_or-append_right (x ∷ xs) ys i d = rw suc-add (get_or-append_right xs ys i d)

  pub All-append {κ} : (P : A → Type κ) (xs ys : List A) → All P xs → All P ys → All P (xs ++ ys)
  All-append P [] ys _ q = q
  All-append P (x ∷ xs) ys (p, ps) q = (p, All-append P xs ys ps q)

  pub last_or-append : (xs : List A) (y d : A) → last_or (xs ++ (y ∷ [])) d ≡ y
  last_or-append [] y d = refl
  last_or-append (x ∷ xs) y d = last_or-append xs y x

  pub Extends-cons : (x : A) (xs ys : List A) → Extends xs ys → Extends (x ∷ xs) (x ∷ ys)
  Extends-cons x xs ys (extra, e) = (extra, ap (λ l. x ∷ l) e)

  pub Extends-nil : (ys : List A) → Extends [] ys
  Extends-nil ys = (ys, refl)

  pub Extends-get_or :
      (xs ys : List A) (i : ℕ) (d : A)
      → Extends xs ys
      → i < length xs
      → get_or ys i d ≡ get_or xs i d
  Extends-get_or xs ys i d (extra, e) h = rw e (get_or-append_left xs extra i d h)

  pub get_elem?-append_left :
      (xs ys : List A) (i : ℕ) → i < length xs → get_elem? (xs ++ ys) i ≡ get_elem? xs i
  get_elem?-append_left [] ys i h = absurd (omega arith)
  get_elem?-append_left (x ∷ xs) ys zero h = refl
  get_elem?-append_left (x ∷ xs) ys (suc i) h = get_elem?-append_left xs ys i (omega arith)

  pub take-append : (n : ℕ) (xs ys : List A) → n ≤ length xs → take n (xs ++ ys) ≡ take n xs
  take-append zero xs ys h = refl
  take-append (suc n) [] ys h = absurd (omega arith)
  take-append (suc n) (x ∷ xs) ys h = ap (λ l. x ∷ l) (take-append n xs ys (omega arith))

  pub drop-append : (n : ℕ) (xs ys : List A) → n ≤ length xs → drop n (xs ++ ys) ≡ drop n xs ++ ys
  drop-append zero xs ys h = refl
  drop-append (suc n) [] ys h = absurd (omega arith)
  drop-append (suc n) (x ∷ xs) ys h = drop-append n xs ys (omega arith)

  pub replicate-Extends :
      (n m : ℕ) (a : A) (ys : List A) → n ≤ m → Extends (replicate n a) (replicate m a ++ ys)
  replicate-Extends zero m a ys h = Extends-nil (replicate m a ++ ys)
  replicate-Extends (suc n) zero a ys h = absurd (omega arith)
  replicate-Extends (suc n) (suc m) a ys h =
      Extends-cons a (replicate n a) (replicate m a ++ ys)
        (replicate-Extends n m a ys (omega arith))

  pub replicate_le-Extends : (n m : ℕ) (a : A) → n ≤ m → Extends (replicate n a) (replicate m a)
  replicate_le-Extends zero m a h = Extends-nil (replicate m a)
  replicate_le-Extends (suc n) zero a h = absurd (omega arith)
  replicate_le-Extends (suc n) (suc m) a h =
      Extends-cons a (replicate n a) (replicate m a) (replicate_le-Extends n m a (omega arith))

  pub Extends-append_left : (zs xs ys : List A) → Extends xs ys → Extends (zs ++ xs) (zs ++ ys)
  Extends-append_left [] xs ys h = h
  Extends-append_left (z ∷ zs) xs ys h =
      Extends-cons z (zs ++ xs) (zs ++ ys) (Extends-append_left zs xs ys h)

module _ {ℓ κ} {A : Type ℓ} {B : Type κ} where
  pub length-map : (xs : List A) (f : A → B) → length (map f xs) ≡ length xs
  length-map [] f = refl
  length-map (x ∷ xs) f = ap suc (length-map xs f)

  pub map-Extends : (xs ys : List A) (f : A → B) → Extends (map f xs) (map f (xs ++ ys))
  map-Extends [] ys f = Extends-nil (map f ys)
  map-Extends (x ∷ xs) ys f = Extends-cons (f x) (map f xs) (map f (xs ++ ys)) (map-Extends xs ys f)

-- Some item of the list satisfies `P`.
pub data Some {ℓ κ} {A : Type ℓ} (P : A → Type κ) : List A → Type (ℓ ⊔ κ) where
  at_head : {x : A} {xs : List A} → P x → Some P (x ∷ xs)
  further : {x : A} {xs : List A} → Some P xs → Some P (x ∷ xs)

pub Some-append_left {ℓ κ} :
    {A : Type ℓ} {P : A → Type κ} {xs : List A} (ys : List A) → Some P xs → Some P (xs ++ ys)
Some-append_left ys (at_head p) = at_head p
Some-append_left ys (further s) = further (Some-append_left ys s)

pub Some-append_right {ℓ κ} :
    {A : Type ℓ} {P : A → Type κ} (xs : List A) {ys : List A} → Some P ys → Some P (xs ++ ys)
Some-append_right [] s = s
Some-append_right (x ∷ xs) s = further (Some-append_right xs s)

abbrev pub Elem {ℓ} : {A : Type ℓ} → A → List A → Type ℓ
Elem x = Some (λ y. x ≡ y)

pub Elem-Some {ℓ κ} :
    {A : Type ℓ} (P : A → Type κ) {x : A} {xs : List A} → Elem x xs → P x → Some P xs
Elem-Some P (at_head e) p = at_head (subst P e p)
Elem-Some P (further s) p = further (Elem-Some P s p)

pub All-map {ℓ κ μ} :
    {A : Type ℓ} (P : A → Type κ) (Q : A → Type μ) (xs : List A)
    → ((x : A) → P x → Q x)
    → All P xs
    → All Q xs
All-map P Q [] f h = tt
All-map P Q (x ∷ xs) f (p, ps) = (f x p, All-map P Q xs f ps)

pub All-Elem {ℓ} : {A : Type ℓ} (xs : List A) → All (λ x. Elem x xs) xs
All-Elem [] = tt
All-Elem (x ∷ xs) = (
  at_head refl,
  All-map (λ y. Elem y xs) (λ y. Elem y (x ∷ xs)) xs (λ y e. further e) (All-Elem xs),
)

pub All-last {ℓ κ} :
    {A : Type ℓ} (P : A → Type κ) (xs : List A) (x : A) → All P (x ∷ xs) → P (last_or xs x)
All-last P [] x (p, _) = p
All-last P (y ∷ xs) x (_, ps) = All-last P xs y ps

pub All-zip {ℓ κ μ} :
    {A : Type ℓ} (P : A → Type κ) (Q : A → Type μ) (xs : List A)
    → All P xs
    → All Q xs
    → All (λ x. P x × Q x) xs
All-zip P Q [] p q = tt
All-zip P Q (x ∷ xs) (p, ps) (q, qs) = ((p, q), All-zip P Q xs ps qs)
