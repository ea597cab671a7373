-- ===== src/Proxy/Paths.antt =====
-- Request paths: path.Clean and strings.Split of Go's library over bytes, and hasDotSegments of
-- internal/proxy/gateway.go.
use mathlib.Core.List.{reverse, reverse-cons, append_assoc, append-nil}
use turnike.Common.{
  ℕ, ◌==◌, Bool, true, false, not, ◌||◌, List, [], ◌∷◌, ◌++◌, Text, codes, text_eq, keep,
  if◌then◌else◌, ◌≡◌, sym, ap, ◌∙◌, arith, Bool-cases, inl, inr,
}

abbrev push : ℕ → List Text → List Text
push c [] = (c ∷ []) ∷ []
push c (seg ∷ segs) = (c ∷ seg) ∷ segs

-- strings.Split(s, "/").
unfoldable pub split : Text → List Text
split [] = [] ∷ []
split (c ∷ s) = if c == b'/' then [] ∷ split s else push c (split s)

abbrev pub is_dots : Text → Bool
is_dots seg = text_eq seg (codes ".") || text_eq seg (codes "..")

abbrev pub any : (Text → Bool) → List Text → Bool
any p [] = false
any p (x ∷ xs) = p x || any p xs

unfoldable pub has_dot_segments : Text → Bool
unfolding split
has_dot_segments path = any is_dots (split path)

-- `..` takes the last segment away, if there is one that is no `..` itself; above the root it is
-- dropped, in a relative path it is kept. The stack has its top at the head.
parent : Bool → List Text → List Text
parent true [] = []
parent true (top ∷ stack) = stack
parent false [] = codes ".." ∷ []
parent false (top ∷ stack) = if text_eq top (codes "..") then codes ".." ∷ top ∷ stack else stack

-- One segment of path.Clean.
resolve : Bool → List Text → Text → List Text
unfolding parent
resolve rooted stack seg =
    if text_eq seg [] || text_eq seg (codes ".")
    then stack
    else (if text_eq seg (codes "..") then parent rooted stack else seg ∷ stack)

resolve_all : Bool → List Text → List Text → List Text
unfolding resolve
resolve_all rooted stack [] = reverse stack
resolve_all rooted stack (seg ∷ segs) = resolve_all rooted (resolve rooted stack seg) segs

unfoldable pub join : List Text → Text
join [] = []
join (seg ∷ []) = seg
join (seg ∷ next ∷ segs) = seg ++ b'/' ∷ join (next ∷ segs)

abbrev or_dot : Text → Text
or_dot [] = codes "."
or_dot (c ∷ s) = c ∷ s

-- path.Clean.
unfoldable pub clean : Text → Text
unfolding resolve_all join split
clean [] = codes "."
clean (c ∷ s) =
    if c == b'/'
    then b'/' ∷ join (resolve_all true [] (split s))
    else or_dot (join (resolve_all false [] (split (c ∷ s))))

-- The segments of a path that are not empty.
abbrev pub names : List Text → List Text
names = keep (λ seg. not (text_eq seg []))

resolve_name :
    (stack : List Text) (seg : Text)
    → text_eq seg [] ≡ false
    → is_dots seg ≡ false
    → resolve true stack seg ≡ seg ∷ stack
unfolding resolve
resolve_name stack seg e h = ground (arith, e, h)

resolve_empty :
    (stack : List Text) (seg : Text) → text_eq seg [] ≡ true → resolve true stack seg ≡ stack
unfolding resolve
resolve_empty stack seg e = rw e

resolve_all-names :
    (stack segs : List Text)
    → any is_dots segs ≡ false
    → resolve_all true stack segs ≡ reverse stack ++ names segs
unfolding resolve_all
resolve_all-names stack [] h = sym (append-nil (reverse stack))
resolve_all-names stack (seg ∷ segs) h = elim (Bool-cases (text_eq seg [])) [
  | inl e ↦ rw (resolve_empty stack seg e, e) (resolve_all-names stack segs (ground arith))
  | inr e ↦
      rw (resolve_name stack seg e (ground arith), e)
        (resolve_all-names (seg ∷ stack) segs (ground arith)
          ∙ rw (reverse-cons seg stack) (append_assoc (reverse stack) (seg ∷ []) (names segs)))
]

-- Cleaning a rooted path without dot segments drops empty segments and nothing else.
clean-names :
    (s : Text)
    → has_dot_segments (b'/' ∷ s) ≡ false
    → clean (b'/' ∷ s) ≡ b'/' ∷ join (names (split (b'/' ∷ s)))
unfolding clean has_dot_segments text_eq
clean-names s h = ap (λ segs. b'/' ∷ join segs) (resolve_all-names [] (split s) (ground arith))
