-- ===== src/Proxy/Table/Longest.antt =====
-- internal/proxy/table.go: the table's answer and the configured prefixes.
use native.Mathlib.Decide.{dec_lt}
use mathlib.Core.List.{append_assoc, append-nil}
use turnike.Common.{
  ℕ, ◌<◌, ||_iff, ◌≤◌, true, false, none, some, List, [], ◌∷◌, ◌++◌, map, length, All, In, All-In,
  Text, text_eq, text_eq_iff, starts_with_iff, ◌≡◌, ◌⊎◌, ◌↔◌, inl, inr, refl, subst, sym, ap, ◌∙◌,
  arith, Bool-cases,
}
use turnike.Config.{Route}
use turnike.Config.Validate.{normalize}
use turnike.Proxy.Paths.{clean}
use turnike.Proxy.Table.Order.{IsSorted, sort-IsSorted, All-unsort, All-sort}
use turnike.Proxy.Table.{Entry, compile, sort, new_table, covers, scan, match}

-- A prefix covers a path that it equals or that continues it after a slash.
abbrev pub Covers : Text → Text → Type 0
Covers p prefix = (p ≡ prefix) ⊎ ((rest : Text) × (p ≡ prefix ++ b'/' ∷ rest))

covers_sound : (p prefix : Text) → covers p prefix ≡ true → Covers p prefix
covers_sound p prefix h = elim ((||_iff (text_eq p prefix) _).0 h) [
  | inl same ↦ inl ((text_eq_iff p prefix).0 same)
  | inr more ↦
      let (rest, e) = (starts_with_iff p (prefix ++ b'/' ∷ [])).0 more in
      inr (rest, e ∙ append_assoc prefix (b'/' ∷ []) rest)
]

covers_complete : (p prefix : Text) → Covers p prefix → covers p prefix ≡ true
covers_complete p prefix (inl e) = (||_iff _ _).1 (inl ((text_eq_iff p prefix).1 e))
covers_complete p prefix (inr (rest, e)) = (||_iff _ _).1 (
    inr (
      (starts_with_iff p (prefix ++ b'/' ∷ [])).1
        (rest, e ∙ sym (append_assoc prefix (b'/' ∷ []) rest))))

-- Two prefixes of one path that are equally long are equal.
append-injective : (a b x y : Text) → a ++ x ≡ b ++ y → length a ≡ length b → a ≡ b
append-injective [] [] x y e h = refl
append-injective [] (c ∷ b) x y e h = absurd (omega arith)
append-injective (c ∷ a) [] x y e h = absurd (omega arith)
append-injective (c ∷ a) (d ∷ b) x y e h =
    let rest = append-injective a b x y (cc) (omega arith) in cc

Covers-starts : (p prefix : Text) → Covers p prefix → (rest : Text) × (p ≡ prefix ++ rest)
Covers-starts p prefix (inl e) = ([], e ∙ sym (append-nil prefix))
Covers-starts p prefix (inr (rest, e)) = (b'/' ∷ rest, e)

-- A prefix that covers the path is shorter than `best`, or is `best`.
abbrev pub Yields : Text → Text → Text → Type 0
Yields p best prefix = Covers p prefix → (length prefix < length best) ⊎ (prefix ≡ best)

Yields-of_le :
    (p best prefix : Text)
    → Covers p best
    → (Covers p prefix → length prefix ≤ length best)
    → Yields p best prefix
Yields-of_le p best prefix b le c = elim (dec_lt (length prefix) (length best)) [
  | yes shorter ↦ inl shorter
  | no equal ↦
      let (x, e) = Covers-starts p prefix c in
      let (y, e') = Covers-starts p best b in
      inr (append-injective prefix best x y (sym e ∙ e') (omega (arith, le c)))
]

scan-none :
    (p : Text) (es : List Entry) → scan p es ≡ none → All (λ d. covers p d.prefix ≡ false) es
unfolding scan
scan-none p [] h = tt
scan-none p (e ∷ es) h = elim (Bool-cases (covers p e.prefix)) [
  | inl hit ↦ absurd (cc (rw hit at h))
  | inr miss ↦ (miss, scan-none p es (rw miss at h))
]

entry_of_some : {x y : Entry} → some x ≡ some y → x ≡ y
entry_of_some e = cc

All-weaken :
    (p : Text) (n : ℕ) (es : List Entry)
    → All (λ d. length d.prefix ≤ n) es
    → All (λ d. covers p d.prefix ≡ true → length d.prefix ≤ n) es
All-weaken p n [] h = tt
All-weaken p n (d ∷ es) (h, hs) = ((λ _. h), All-weaken p n es hs)

scan-some :
    (p : Text) (es : List Entry) (e : Entry)
    → IsSorted es
    → scan p es ≡ some e
    → In e es
      × (covers p e.prefix ≡ true)
      × All (λ d. covers p d.prefix ≡ true → length d.prefix ≤ length e.prefix) es
unfolding scan
scan-some p [] e s h = absurd (cc)
scan-some p (x ∷ xs) e (s, ss) h = elim (Bool-cases (covers p x.prefix)) [
  | inl hit ↦
      let same : x ≡ e = entry_of_some (rw hit at h) in
      (
        inl (sym same),
        subst (λ d. covers p d.prefix ≡ true) same hit,
        (
          (λ _. omega (arith, ap (λ d. length d.prefix) same)),
          subst (λ d. All (λ y. covers p y.prefix ≡ true → length y.prefix ≤ length d.prefix) xs)
              same (All-weaken p (length x.prefix) xs s),
        ),
      )
  | inr miss ↦
      let (listed, cov, longest) = scan-some p xs e ss (rw miss at h) in
      (inr listed, cov, ((λ hit. absurd (cc)), longest))
]

All-of : {A : Type 0} (P : A → Type 0) (xs : List A) → ((a : A) → In a xs → P a) → All P xs
All-of P [] h = tt
All-of P (x ∷ xs) h = (h x (inl refl), All-of P xs (λ a m. h a (inr m)))

pub In-sort : (e : Entry) (es : List Entry) → In e (sort es) → In e es
In-sort e es m =
    All-In (λ x. In x es) (sort es)
      (All-sort (λ x. In x es) es (All-of (λ x. In x es) es (λ a h. h))) m

pub In-compile :
    (e : Entry) (rs : List Route) → In e (map compile rs) → (r : Route) × In r rs × (e ≡ compile r)
In-compile e [] m = absurd m
In-compile e (r ∷ rs) (inl h) = (r, inl refl, h)
In-compile e (r ∷ rs) (inr m) = let (s, listed, h) = In-compile e rs m in (s, inr listed, h)

All-compile :
    (P : Text → Type 0) (rs : List Route)
    → All (λ e. P e.prefix) (map compile rs)
    → All (λ r. P (normalize r.prefix)) rs
All-compile P [] h = tt
All-compile P (r ∷ rs) (h, hs) = (h, All-compile P rs hs)

All-Yields :
    (p best : Text) (es : List Entry)
    → Covers p best
    → All (λ d. covers p d.prefix ≡ true → length d.prefix ≤ length best) es
    → All (λ d. Yields p best d.prefix) es
All-Yields p best [] b h = tt
All-Yields p best (d ∷ es) b (h, hs) = (
  Yields-of_le p best d.prefix b (λ c. h (covers_complete p d.prefix c)),
  All-Yields p best es b hs,
)

-- The match is a configured route under its normalized prefix, which covers the cleaned path; any
-- other configured prefix that covers it is strictly shorter.
pub match-longest :
    (routes : List Route) (path : Text) (e : Entry)
    → match (new_table routes) path ≡ some e
    → In e.route routes
      × (e.prefix ≡ normalize e.route.prefix)
      × Covers (clean path) e.prefix
      × All (λ r. Yields (clean path) e.prefix (normalize r.prefix)) routes
unfolding match new_table
match-longest routes path e h =
    let (listed, cov, longest) =
      scan-some (clean path) (sort (map compile routes)) e (sort-IsSorted (map compile routes)) h in
    let (r, known, same) = In-compile e routes (In-sort e (map compile routes) listed) in
    let covered = covers_sound (clean path) e.prefix cov in
    let (configured, normalized) =
      subst (λ x. In x.route routes × (x.prefix ≡ normalize x.route.prefix)) (sym same)
        (known, refl) in
    (
      configured,
      normalized,
      covered,
      All-compile (Yields (clean path) e.prefix) routes
          (All-unsort _ (map compile routes) (All-Yields (clean path) e.prefix _ covered longest)),
    )

-- The match is an entry of the table.
pub match-In :
    (routes : List Route) (path : Text) (e : Entry)
    → match (new_table routes) path ≡ some e
    → In e (new_table routes)
unfolding match new_table
match-In routes path e h =
    (scan-some (clean path) (sort (map compile routes)) e (sort-IsSorted (map compile routes)) h).0

All-not :
    (p : Text) (es : List Entry)
    → All (λ d. covers p d.prefix ≡ false) es
    → All (λ d. ¬ Covers p d.prefix) es
All-not p [] h = tt
All-not p (d ∷ es) (h, hs) = ((λ c. cc (covers_complete p d.prefix c)), All-not p es hs)

scan-uncovered : (p : Text) (es : List Entry) → All (λ d. ¬ Covers p d.prefix) es → scan p es ≡ none
unfolding scan
scan-uncovered p [] h = refl
scan-uncovered p (d ∷ es) (h, hs) = elim (Bool-cases (covers p d.prefix)) [
  | inl hit ↦ absurd (h (covers_sound p d.prefix hit))
  | inr miss ↦ rw miss (scan-uncovered p es hs)
]

All-decompile :
    (P : Text → Type 0) (rs : List Route)
    → All (λ r. P (normalize r.prefix)) rs
    → All (λ e. P e.prefix) (map compile rs)
All-decompile P [] h = tt
All-decompile P (r ∷ rs) (h, hs) = (h, All-decompile P rs hs)

-- Nothing matches exactly if no configured prefix covers the cleaned path.
match-none :
    (routes : List Route) (path : Text)
    → (match (new_table routes) path ≡ none)
      ↔ All (λ r. ¬ Covers (clean path) (normalize r.prefix)) routes
unfolding match new_table
match-none routes path = (
  λ h.
      All-compile (λ t. ¬ Covers (clean path) t) routes
        (All-unsort _ (map compile routes) (All-not (clean path) _ (scan-none (clean path) _ h))),
  λ h.
      scan-uncovered (clean path) (sort (map compile routes))
        (All-sort _ (map compile routes) (All-decompile (λ t. ¬ Covers (clean path) t) routes h)),
)
