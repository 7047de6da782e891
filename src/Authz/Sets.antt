-- ===== src/Authz/Sets.antt =====
-- The bitset of internal/platform/authz/permissions.go. `permMax` is 70, so that `setWords` is 2 and
-- the array of words is a pair; each loop over the words does one thing to both.
pub mod Laws
use Prim.Native.Nat.{bit_and, bit_or}
use specforge.Prelude.{
  ℕ, ◌-◌, ◌/◌, ◌%◌, ◌^◌, String, Bool, true, false, ◌&&◌, ◌||◌, not, List, [], ◌∷◌, ◌++◌, Option,
  none, some, Result, ok, err, eqb, leb, if◌then◌else◌, is_empty,
}
use specforge.Prelude.Words.{and_not}
use specforge.Authz.Permissions.{Permission, perm_invalid, perm_max, parse_permission}

pub record Set : Type 0 where
  pub word0 : ℕ
  pub word1 : ℕ

abbrev pub empty_set : Set
empty_set = record { word0 = 0; word1 = 0 }

-- The guard of `add` and `Has`, negated.
abbrev pub is_permission : Permission → Bool
is_permission p = not (eqb p perm_invalid || leb perm_max p)

-- `1 << (p % 64)`
abbrev pub mask : Permission → ℕ
mask p = 2 ^ (p % 64)

unfoldable pub add : Set → Permission → Set
add s p =
    if is_permission p
    then if eqb (p / 64) 0
      then record s { word0 = bit_or s.word0 (mask p) }
      else record s { word1 = bit_or s.word1 (mask p) }
    else s

add_all : Set → List Permission → Set
unfolding add
add_all s [] = s
add_all s (p ∷ ps) = add_all (add s p) ps

unfoldable pub new_set : List Permission → Set
unfolding add_all
new_set ps = add_all empty_set ps

unfoldable pub has : Set → Permission → Bool
has s p =
    if is_permission p
    then not (eqb (bit_and (if eqb (p / 64) 0 then s.word0 else s.word1) (mask p)) 0)
    else false

unfoldable pub has_all : Set → List Permission → Bool
has_all s [] = true
has_all s (p ∷ ps) = if has s p then has_all s ps else false

unfoldable pub has_any : Set → List Permission → Bool
has_any s [] = false
has_any s (p ∷ ps) = if has s p then true else has_any s ps

unfoldable pub union : Set → Set → Set
union s t = record { word0 = bit_or s.word0 t.word0; word1 = bit_or s.word1 t.word1 }

unfoldable pub intersect : Set → Set → Set
intersect s t = record { word0 = bit_and s.word0 t.word0; word1 = bit_and s.word1 t.word1 }

unfoldable pub without : Set → Set → Set
without s t = record { word0 = and_not s.word0 t.word0; word1 = and_not s.word1 t.word1 }

unfoldable pub empty : Set → Bool
empty s = eqb s.word0 0 && eqb s.word1 0

-- `FromNames`, whose error lists the names that are unknown.
unfoldable pub from_names_loop : Set → List String → List String → Set × List String
from_names_loop s unknown [] = (s, unknown)
from_names_loop s unknown (n ∷ ns) = elim (parse_permission n) [
  | some p ↦ from_names_loop (add s p) unknown ns
  | none ↦ from_names_loop s (unknown ++ n ∷ []) ns
]

unfoldable pub from_names : List String → Result (List String) Set
unfolding from_names_loop
from_names names =
    let (s, unknown) = from_names_loop empty_set [] names in
    if is_empty unknown then ok s else err unknown
