-- ===== src/Ldap/Members.antt =====
-- Membership through other groups: ldap.cpp, `member_of_chain_contains` to
-- `object_attribute_transitive_matches`.
pub mod Seen
pub mod Chain
use endorium_nexus.Ldap.Objects.{
  LdapObject, equals_ascii_case, ldap_attribute_matches, is_group_object,
  constructed_member_of_values, constructed_member_values, find_object_by_dn, contains_visited_dn,
}
use endorium_nexus.Prelude.{
  ltb, leb, ◌==◌, if◌then◌else◌, ltb→lt, lt→ltb, le→ltb, leb→le, ==_iff, tests, Bool-cases,
  Option-cases, length, get_elem?, set, take, drop, is_empty, any, keep, All, All-append,
  length-append, length-set, length-take, length-drop, take-append-drop, take-append, drop-append,
  drop-append_le, get_elem?-lt, get_elem?-append, set-append, Outcome, ok, reject, fault, ◌>>=◌,
  ◌>>◌, reject_if, attempt, byte_at, Outcome-cases, Ensures, Ends, returns, rejects, Ensures-bind,
  Ensures-ok, Ensures-ne-fault, Ensures-map, Ensures-attempt, Ensures-guard, Ensures-if, Returns,
  returned, Returns-bind, Returns-attempt, Returns-option, Returns-if, Returns-ok, slice-Returns,
  byte_at-append, byte_at-behind, slice, slice-append, slice-Ensures, byte_at-lt, byte_at-Ensures,
  Text, codes, text_eq, text_eq_refl, text_eq→eq, text_eq_iff, ℤ, pos, negsuc, digits_of, to_string,
  digit_in, digits_run, wrapped, unsigned_run, prefixed_run, run_of, signed_run, stoul, is_space,
  trim_start, trim_end, behind_last, before_last, is_digit, decimal_value, unsigned_value, negated,
  signed_value, stoi, find_char, starts_with, starts_with-append, find_text, contains,
  contains-append, ends_with, to_lower, to_lower_idem, map-to_lower_idem, ℕ, zero, suc, ◌+◌, ◌-◌,
  ◌*◌, ◌/◌, ◌%◌, ◌^◌, ◌≤◌, ◌<◌, min, max, ◌≡◌, refl, sym, ap, ◌∙◌, ◌≢◌, ◌↔◌, ◌⊎◌, inl, inr, Bool,
  true, false, not, ◌&&◌, ◌||◌, Option, none, some, List, [], ◌∷◌, ◌++◌, map, append_assoc,
  append-nil, arith,
}

-- The two walks differ in where they go from an object, and in which objects they enter. They share
-- the names seen so far, which are passed by reference.
module _ (accepts : LdapObject → Bool) (neighbours : LdapObject → List Text)
    (objects : List LdapObject) (target : Text) where
  -- The loop over the neighbours; `enter` is the call of the walk at one of them.
  unfoldable pub walk_neighbours :
      (LdapObject → List Text → Outcome (Bool × List Text))
      → List Text
      → List Text
      → Outcome (Bool × List Text)
  walk_neighbours enter [] visited_dns = ok (false, visited_dns)
  walk_neighbours enter (dn ∷ dns) visited_dns =
      let skip = walk_neighbours enter dns visited_dns in
      if equals_ascii_case dn target
      then ok (true, visited_dns)
      else elim (find_object_by_dn objects dn) [
        | none ↦ skip
        | some object ↦ enter object visited_dns >>= λ (found, seen).
            if found then ok (true, seen) else walk_neighbours enter dns seen
      ]

  -- `fault` is a walk deeper than the rounds it was given.
  unfoldable pub walk : ℕ → LdapObject → List Text → Outcome (Bool × List Text)
  walk zero object visited_dns = fault
  walk (suc rounds) object visited_dns =
      if not (accepts object) || contains_visited_dn visited_dns object.dn
      then ok (false, visited_dns)
      else walk_neighbours (walk rounds) (neighbours object) (visited_dns ++ object.dn ∷ [])

  -- A walk that has seen nothing, deep enough to enter every object once.
  unfoldable pub contained : LdapObject → Outcome Bool
  contained object = walk (suc (suc (length objects))) object [] >>= λ (found, seen). ok found

unfoldable pub member_of_chain_contains : LdapObject → Text → List LdapObject → Outcome Bool
member_of_chain_contains object target objects =
    contained (λ o. true) (λ o. constructed_member_of_values o (some objects)) objects target object

unfoldable pub member_chain_contains : LdapObject → Text → List LdapObject → Outcome Bool
member_chain_contains group target objects =
    contained is_group_object (λ o. constructed_member_values o (some objects)) objects target group

unfoldable pub object_attribute_transitive_matches :
    LdapObject → Text → Text → Option (List LdapObject) → Outcome Bool
object_attribute_transitive_matches object attribute expected all_objects = elim all_objects [
  | none ↦ ok false
  | some objects ↦
      if ldap_attribute_matches attribute (codes "memberOf")
      then member_of_chain_contains object expected objects
      else if ldap_attribute_matches attribute (codes "member")
      then member_chain_contains object expected objects
      else ok false
]
