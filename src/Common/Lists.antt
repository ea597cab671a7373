-- ===== src/Common/Lists.antt =====
-- Lists measured by native numbers, filtered and searched by Boolean tests.
use Prim.Native.Nat.{ℕ, suc, ◌+◌, ◌≤◌}
use mathlib.Core.Path.{◌≡◌, refl, sym, subst}
use mathlib.Core.Logic.{◌⊎◌, ◌↔◌, inl, inr}
use mathlib.Core.Bool.{Bool, true}
use mathlib.Core.List.{List, [], ◌∷◌, ◌++◌}
use mathlib.Core.Option.{Option, none, some}
use native.Mathlib.Omega.{arith}
use turnike.Common.Booleans.{if◌then◌else◌}

module _ {ℓ} {A : Type ℓ} where
  abbrev pub length : List A → ℕ
  length [] = 0
  length (x ∷ xs) = suc (length xs)

  pub length-append : (xs ys : List A) → length (xs ++ ys) ≡ length xs + length ys
  length-append [] ys = omega arith
  length-append (x ∷ xs) ys = omega (arith, length-append xs ys)

  -- The entries that pass a test, in order.
  abbrev pub keep : (A → Bool) → List A → List A
  keep p [] = []
  keep p (x ∷ xs) = if p x then x ∷ keep p xs else keep p xs

  pub length-keep-le : (p : A → Bool) (xs : List A) → length (keep p xs) ≤ length xs
  length-keep-le p [] = omega arith
  length-keep-le p (x ∷ xs) = ground (arith, length-keep-le p xs)

  pub keep-append : (p : A → Bool) (xs ys : List A) → keep p (xs ++ ys) ≡ keep p xs ++ keep p ys
  keep-append p [] ys = refl
  keep-append p (x ∷ xs) ys = ground (arith, keep-append p xs ys)

  pub length-keep_middle :
      (p : A → Bool) (xs : List A) (y : A) (ys : List A)
      → length (keep p (xs ++ y ∷ ys))
        ≡ length (keep p xs) + ((if p y then 1 else 0) + length (keep p ys))
  length-keep_middle p [] y ys = ground arith
  length-keep_middle p (x ∷ xs) y ys = ground (arith, length-keep_middle p xs y ys)

  abbrev pub head? : List A → Option A
  head? [] = none
  head? (x ∷ xs) = some x

  abbrev pub last? : List A → Option A
  last? [] = none
  last? (x ∷ []) = some x
  last? (x ∷ y ∷ ys) = last? (y ∷ ys)

  pub last?-append : (xs : List A) (y : A) → last? (xs ++ y ∷ []) ≡ some y
  last?-append [] y = refl
  last?-append (x ∷ []) y = refl
  last?-append (x ∷ z ∷ xs) y = last?-append (z ∷ xs) y

-- Membership by recursion.
abbrev pub In : {A : Type 0} → A → List A → Type 0
In a [] = ⊥
In a (x ∷ xs) = (a ≡ x) ⊎ In a xs

module _ {ℓ κ} {A : Type ℓ} (P : A → Type κ) where
  -- A predicate that holds of every entry.
  abbrev pub All : List A → Type κ
  All [] = Unit
  All (x ∷ xs) = P x × All xs

  pub All-append : (xs ys : List A) → All xs → All ys → All (xs ++ ys)
  All-append [] ys h k = k
  All-append (x ∷ xs) ys (p, h) k = (p, All-append xs ys h k)

  pub All-middle : (xs : List A) (y : A) (ys : List A) → All (xs ++ y ∷ ys) → All xs × P y × All ys
  All-middle [] y ys (p, h) = (tt, p, h)
  All-middle (x ∷ xs) y ys (q, h) =
      let (before, own, after) = All-middle xs y ys h in ((q, before), own, after)

  pub All-keep : (p : A → Bool) (xs : List A) → All xs → All (keep p xs)
  All-keep p [] h = h
  All-keep p (x ∷ xs) (q, h) = ground (arith, All-keep p xs h)

pub All-In {κ} : {A : Type 0} (P : A → Type κ) (xs : List A) {a : A} → All P xs → In a xs → P a
All-In P (x ∷ xs) (p, h) (inl e) = subst P (sym e) p
All-In P (x ∷ xs) (p, h) (inr m) = All-In P xs h m
All-In P [] h m = absurd m

-- An association list, as a Go map: the first entry under a key counts.
module _ {ℓ κ} {K : Type ℓ} {V : Type κ} (eq : K → K → Bool) where
  abbrev pub lookup : K → List (K × V) → Option V
  lookup k [] = none
  lookup k ((j, v) ∷ m) = if eq j k then some v else lookup k m

  -- The entry under a key is replaced, or a new one goes to the end.
  abbrev pub insert : K → V → List (K × V) → List (K × V)
  insert k v [] = (k, v) ∷ []
  insert k v ((j, w) ∷ m) = if eq j k then (k, v) ∷ m else (j, w) ∷ insert k v m

-- A map is read back at the key that was stored, and unchanged at any other.
pub lookup-insert {ℓ κ} :
    {K : Type ℓ} {V : Type κ} (eq : K → K → Bool)
    → ((a b : K) → (eq a b ≡ true) ↔ (a ≡ b))
    → (k j : K) (v : V) (m : List (K × V))
    → lookup eq j (insert eq k v m) ≡ (if eq k j then some v else lookup eq j m)
lookup-insert eq iff k j v [] = refl
lookup-insert eq iff k j v ((i, w) ∷ m) =
    ground (arith, iff k j, iff i k, iff i j, lookup-insert eq iff k j v m)

-- A relation between each entry and all later ones.
abbrev pub Pairwise {κ} : {A : Type 0} → (A → A → Type κ) → List A → Type κ
Pairwise R [] = Unit
Pairwise R (x ∷ xs) = All (R x) xs × Pairwise R xs

pub length-keep_mono {ℓ} :
    {A : Type ℓ} (p q : A → Bool) (xs : List A)
    → ((x : A) → p x ≡ true → q x ≡ true)
    → length (keep p xs) ≤ length (keep q xs)
length-keep_mono p q [] h = omega arith
length-keep_mono p q (x ∷ xs) h = ground (arith, h x, length-keep_mono p q xs h)
