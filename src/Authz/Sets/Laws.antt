-- ===== src/Authz/Sets/Laws.antt =====
-- The bitset of internal/platform/authz/permissions.go behaves as a set of permissions.
use specforge.Prelude.{
  ◌/◌, ◌%◌, ◌^◌, ◌≡◌, Bool, false, ◌&&◌, ◌||◌, not, any, List, [], ◌∷◌, arith, eqb, if◌then◌else◌,
}
use specforge.Prelude.Words.{
  test_bit, test_bit-or, test_bit-and, test_bit-and_not, test_bit-two_pow, test_bit-zero, and_mask,
}
use specforge.Authz.Permissions.{Permission}
use specforge.Authz.Sets.{
  Set, empty_set, is_permission, add, add_all, new_set, has, union, intersect, without,
}

-- The bit that stands for a permission.
bit_of : Set → Permission → Bool
bit_of s p = if eqb (p / 64) 0 then test_bit s.word0 (p % 64) else test_bit s.word1 (p % 64)

has_bit : (s : Set) (p : Permission) → has s p ≡ (is_permission p && bit_of s p)
unfolding has bit_of
has_bit s p = ground (arith, and_mask (p % 64) s.word0, and_mask (p % 64) s.word1)

pub has-empty_set : (p : Permission) → has empty_set p ≡ false
unfolding bit_of
has-empty_set p = ground (arith, has_bit empty_set p, test_bit-zero (p % 64))

-- The combination of two sets has what either has.
pub has-union : (s t : Set) (p : Permission) → has (union s t) p ≡ (has s p || has t p)
unfolding bit_of union
has-union s t p = ground (
  arith,
  has_bit (union s t) p,
  has_bit s p,
  has_bit t p,
  test_bit-or s.word0 t.word0 (p % 64),
  test_bit-or s.word1 t.word1 (p % 64),
)

pub has-intersect : (s t : Set) (p : Permission) → has (intersect s t) p ≡ (has s p && has t p)
unfolding bit_of intersect
has-intersect s t p = ground (
  arith,
  has_bit (intersect s t) p,
  has_bit s p,
  has_bit t p,
  test_bit-and s.word0 t.word0 (p % 64),
  test_bit-and s.word1 t.word1 (p % 64),
)

pub has-without : (s t : Set) (p : Permission) → has (without s t) p ≡ (has s p && not (has t p))
unfolding bit_of without
has-without s t p = ground (
  arith,
  has_bit (without s t) p,
  has_bit s p,
  has_bit t p,
  test_bit-and_not s.word0 t.word0 (p % 64),
  test_bit-and_not s.word1 t.word1 (p % 64),
)

pub has-add :
    (s : Set) (q p : Permission) → has (add s q) p ≡ (has s p || is_permission p && eqb q p)
unfolding bit_of add
has-add s q p = ground (
  arith,
  has_bit (add s q) p,
  has_bit s p,
  test_bit-or s.word0 (2 ^ (q % 64)) (p % 64),
  test_bit-or s.word1 (2 ^ (q % 64)) (p % 64),
  test_bit-two_pow (q % 64) (p % 64),
)

has-add_all :
    (s : Set) (ps : List Permission) (p : Permission)
    → has (add_all s ps) p ≡ (has s p || is_permission p && any (λ q. eqb q p) ps)
unfolding add_all
has-add_all s [] p = ground arith
has-add_all s (q ∷ ps) p = ground (arith, has-add_all (add s q) ps p, has-add s q p)

-- A set built from a list has exactly the listed numbers that are permissions.
pub has-new_set :
    (ps : List Permission) (p : Permission)
    → has (new_set ps) p ≡ (is_permission p && any (λ q. eqb q p) ps)
unfolding new_set
has-new_set ps p = ground (arith, has-add_all empty_set ps p, has-empty_set p)
