-- ===== src/Proxy/Table/Order.antt =====
-- internal/proxy/table.go: the order of the table's entries.
use turnike.Common.{ℕ, ◌≤◌, ltb, List, [], ◌∷◌, length, All, inl, inr, arith, Bool-cases, Pairwise}
use turnike.Proxy.Table.{Entry, place, sort}

-- No entry is shorter than a later one.
abbrev pub IsSorted : List Entry → Type 0
IsSorted es = Pairwise (λ d e. length e.prefix ≤ length d.prefix) es

All-place : (P : Entry → Type 0) (e : Entry) (es : List Entry) → P e → All P es → All P (place e es)
unfolding place
All-place P e [] p h = (p, h)
All-place P e (x ∷ xs) p (q, h) = ground (arith, p, q, h, All-place P e xs p h)

All-mono :
    (n m : ℕ) (es : List Entry)
    → n ≤ m
    → All (λ e. length e.prefix ≤ n) es
    → All (λ e. length e.prefix ≤ m) es
All-mono n m [] le h = tt
All-mono n m (e ∷ es) le (h, hs) = (omega arith, All-mono n m es le hs)

place-IsSorted : (e : Entry) (es : List Entry) → IsSorted es → IsSorted (place e es)
unfolding place
place-IsSorted e [] s = (tt, tt)
place-IsSorted e (x ∷ xs) (s, ss) = elim (Bool-cases (ltb (length e.prefix) (length x.prefix))) [
  | inl shorter ↦ rw shorter (
    All-place (λ y. length y.prefix ≤ length x.prefix) e xs (ground (arith, shorter)) s,
    place-IsSorted e xs ss,
  )
  | inr not_shorter ↦
      let le : length x.prefix ≤ length e.prefix = ground (arith, not_shorter) in
      rw not_shorter ((le, All-mono (length x.prefix) (length e.prefix) xs le s), (s, ss))
]

pub sort-IsSorted : (es : List Entry) → IsSorted (sort es)
unfolding sort
sort-IsSorted [] = tt
sort-IsSorted (e ∷ es) = place-IsSorted e (sort es) (sort-IsSorted es)

All-unplace :
    (P : Entry → Type 0) (e : Entry) (es : List Entry) → All P (place e es) → P e × All P es
unfolding place
All-unplace P e [] h = h
All-unplace P e (x ∷ xs) h = elim (Bool-cases (ltb (length e.prefix) (length x.prefix))) [
  | inl shorter ↦
      let (q, rest) = rw shorter at h in let (p, ps) = All-unplace P e xs rest in (p, (q, ps))
  | inr longer ↦ rw longer at h
]

pub All-unsort : (P : Entry → Type 0) (es : List Entry) → All P (sort es) → All P es
unfolding sort
All-unsort P [] h = tt
All-unsort P (e ∷ es) h = let (p, ps) = All-unplace P e (sort es) h in (p, All-unsort P es ps)

pub All-sort : (P : Entry → Type 0) (es : List Entry) → All P es → All P (sort es)
unfolding sort
All-sort P [] h = tt
All-sort P (e ∷ es) (p, h) = All-place P e (sort es) p (All-sort P es h)
