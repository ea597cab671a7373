-- ===== src/Proxy/Table.antt =====
-- internal/proxy/table.go. sort.SliceStable is a stable insertion sort.
pub mod Order
pub mod Longest
use turnike.Common.{
  ltb, ◌||◌, Bool, Option, none, some, List, [], ◌∷◌, ◌++◌, map, length, Text, text_eq, starts_with,
  if◌then◌else◌,
}
use turnike.Config.{Route}
use turnike.Config.Validate.{normalize}
use turnike.Proxy.Paths.{clean}

-- `prefix` is the route's, normalized.
pub record Entry : Type 0 where
  pub prefix : Text
  pub route : Route

abbrev pub compile : Route → Entry
compile r = record { prefix = normalize r.prefix; route = r }

-- An entry goes before the first that is no longer.
place : Entry → List Entry → List Entry
place e [] = e ∷ []
place e (x ∷ xs) = if ltb (length e.prefix) (length x.prefix) then x ∷ place e xs else e ∷ x ∷ xs

pub sort : List Entry → List Entry
unfolding place
sort [] = []
sort (e ∷ es) = place e (sort es)

unfoldable pub new_table : List Route → List Entry
unfolding sort
new_table routes = sort (map compile routes)

-- A prefix matches a cleaned path as a whole or up to a slash.
abbrev pub covers : Text → Text → Bool
covers p prefix = text_eq p prefix || starts_with p (prefix ++ b'/' ∷ [])

scan : Text → List Entry → Option Entry
scan p [] = none
scan p (e ∷ es) = if covers p e.prefix then some e else scan p es

unfoldable pub match : List Entry → Text → Option Entry
unfolding scan
match entries escaped_path = scan (clean escaped_path) entries
