-- ===== src/Ldap/Filter/Safety.antt =====
-- A filter is decided on any bytes: no read outside the message, and no endless recursion.
use endorium_nexus.Ldap.Ber.{LdapNode, read_node, string_from_node}
use endorium_nexus.Ldap.Ber.Safety.{read_node-Ensures}
use endorium_nexus.Ldap.Objects.{LdapObject}
use endorium_nexus.Ldap.Members.Chain.{transitive-Returns}
use endorium_nexus.Ldap.Filter.{
  all_match, any_matches, none_matches, add_fragment, Assertion, add_part, read_fields,
  value_equals, equality_matches, fragments_match, substring_matches, rule_matches,
  extensible_matches, filter_matches, filter_matches_object,
}
use endorium_nexus.Prelude.{
  ltb, ◌==◌, length, is_empty, Outcome, ok, Returns, returned, Returns-bind, Returns-attempt,
  Returns-option, Returns-if, Returns-ok, slice-Returns, Text, codes, text_eq, ℕ, zero, suc, ◌+◌,
  ◌-◌, ◌≤◌, ◌<◌, ◌≡◌, Bool, not, Option, List, arith,
}

abbrev Settles {ℓ} : {A : Type ℓ} → Outcome A → Type ℓ
Settles m = Returns (λ _. Unit {0}) m

-- The node's content lies inside the message.
abbrev pub Within : List ℕ → LdapNode → Type 0
Within input node = node.content_offset + node.content_length ≤ length input

text-Settles :
    (input : List ℕ) (node : LdapNode) → Within input node → Settles (string_from_node input node)
unfolding string_from_node
text-Settles input node h = slice-Returns input node.content_offset node.content_length h

module _ (input : List ℕ) (matches : LdapNode → Outcome Bool) (size : ℕ)
    (inner : (node : LdapNode)
      → Within input node
      → node.content_length < size
      → Settles (matches node)) where
  all_match-Settles :
      (rounds offset limit : ℕ)
      → limit - offset < rounds
      → limit ≤ offset + size
      → Settles (all_match input matches rounds offset limit)
  unfolding all_match
  all_match-Settles zero offset limit h k = elim h [ ]
  all_match-Settles (suc rounds) offset limit h k =
      Returns-if (not (ltb offset limit)) _ _ (λ _. returned tt)
        λ more.
          Returns-attempt (read_node input offset limit) _ _ (read_node-Ensures input offset limit)
            (returned tt)
            λ node i.
              Returns-bind _ _
                (inner node (omega (arith, i.ends, i.below_size))
                  (omega (arith, i.starts, i.ends, i.below_limit)))
                λ matched _.
                  Returns-if matched _ _
                    (λ _.
                      all_match-Settles rounds node.next_offset limit (ground arith)
                        (omega (arith, i.starts, i.ends)))
                    λ _. returned tt

  any_matches-Settles :
      (rounds offset limit : ℕ)
      → limit - offset < rounds
      → limit ≤ offset + size
      → Settles (any_matches input matches rounds offset limit)
  unfolding any_matches
  any_matches-Settles zero offset limit h k = elim h [ ]
  any_matches-Settles (suc rounds) offset limit h k =
      Returns-if (not (ltb offset limit)) _ _ (λ _. returned tt)
        λ more.
          Returns-attempt (read_node input offset limit) _ _ (read_node-Ensures input offset limit)
            (returned tt)
            λ node i.
              Returns-bind _ _
                (inner node (omega (arith, i.ends, i.below_size))
                  (omega (arith, i.starts, i.ends, i.below_limit)))
                λ matched _.
                  Returns-if matched _ _ (λ _. returned tt)
                    λ _.
                      any_matches-Settles rounds node.next_offset limit (ground arith)
                        (omega (arith, i.starts, i.ends))

  none_matches-Settles :
      (offset limit : ℕ) → limit ≤ offset + size → Settles (none_matches input matches offset limit)
  unfolding none_matches
  none_matches-Settles offset limit k =
      Returns-attempt (read_node input offset limit) _ _ (read_node-Ensures input offset limit)
        (returned tt)
        λ node i.
          Returns-bind _ _
            (inner node (omega (arith, i.ends, i.below_size))
              (omega (arith, i.starts, i.ends, i.below_limit)))
            λ matched _. returned tt

read_fields-Settles :
    {A : Type 0} (add : A → ℕ → Text → A) (input : List ℕ) (rounds offset limit : ℕ) (parts : A)
    → limit - offset < rounds
    → Settles (read_fields add input rounds offset limit parts)
unfolding read_fields
read_fields-Settles add input zero offset limit parts h = elim h [ ]
read_fields-Settles add input (suc rounds) offset limit parts h =
    Returns-if (not (ltb offset limit)) _ _ (λ _. returned tt)
      λ more.
        Returns-attempt (read_node input offset limit) _ _ (read_node-Ensures input offset limit)
          (returned tt)
          λ node i.
            Returns-bind _ _ (text-Settles input node (omega (arith, i.ends, i.below_size)))
              λ text _.
                read_fields-Settles add input rounds node.next_offset limit
                  (add parts node.tag text) (ground arith)

module _ (input : List ℕ) (object : LdapObject) (all_objects : Option (List LdapObject)) where
  value_equals-Settles :
      (attribute : LdapNode) (limit : ℕ)
      → Within input attribute
      → Settles (value_equals input object all_objects attribute limit)
  unfolding value_equals
  value_equals-Settles attribute limit h =
      Returns-attempt (read_node input attribute.next_offset limit) _ _
        (read_node-Ensures input attribute.next_offset limit) (returned tt)
        λ node i. Returns-bind _ _ (text-Settles input attribute h) λ name _.
          Returns-bind _ _ (text-Settles input node (omega (arith, i.ends, i.below_size)))
            λ expected _. returned tt

  equality_matches-Settles :
      (filter : LdapNode) → Settles (equality_matches input object all_objects filter)
  unfolding equality_matches
  equality_matches-Settles filter =
      Returns-attempt (read_node input filter.content_offset _) _ _
        (read_node-Ensures input filter.content_offset _) (returned tt)
        λ first i.
          Returns-if (not (first.tag == 0x30)) _ _
            (λ _. value_equals-Settles first _ (omega (arith, i.ends, i.below_size)))
            λ _.
              Returns-attempt (read_node input first.content_offset _) _ _
                (read_node-Ensures input first.content_offset _) (returned tt)
                λ name j. value_equals-Settles name _ (omega (arith, j.ends, j.below_size))

  fragments_match-Settles :
      (attribute fragments : LdapNode)
      → Within input attribute
      → Settles (fragments_match input object all_objects attribute fragments)
  unfolding fragments_match
  fragments_match-Settles attribute fragments h =
      Returns-option _ _ _
        (read_fields-Settles add_fragment input (fragments.content_length + 1)
          fragments.content_offset _ _ (omega arith))
        (returned tt)
        λ parts. Returns-bind _ _ (text-Settles input attribute h) λ name _. returned tt

  substring_matches-Settles :
      (filter : LdapNode) → Settles (substring_matches input object all_objects filter)
  unfolding substring_matches
  substring_matches-Settles filter =
      Returns-attempt (read_node input filter.content_offset _) _ _
        (read_node-Ensures input filter.content_offset _) (returned tt)
        λ attribute i.
          Returns-if (not (attribute.tag == 0x04)) _ _ (λ _. returned tt)
            λ _.
              Returns-attempt (read_node input attribute.next_offset _) _ _
                (read_node-Ensures input attribute.next_offset _) (returned tt)
                λ fragments j.
                  Returns-if (not (fragments.tag == 0x30)) _ _ (λ _. returned tt)
                    λ _.
                      fragments_match-Settles attribute fragments
                        (omega (arith, i.ends, i.below_size))

  rule_matches-Settles : (parts : Assertion) → Settles (rule_matches input object all_objects parts)
  unfolding rule_matches
  rule_matches-Settles parts =
      Returns-if (is_empty parts.attribute) _ _ (λ _. returned tt)
        λ _.
          Returns-if (text_eq parts.matching_rule (codes "1.2.840.113556.1.4.803")) _ _
            (λ _. returned tt)
            λ _.
              Returns-if (text_eq parts.matching_rule (codes "1.2.840.113556.1.4.804")) _ _
                (λ _. returned tt)
                λ _.
                  Returns-if (text_eq parts.matching_rule (codes "1.2.840.113556.1.4.1941")) _ _
                    (λ _.
                      Returns-bind _ _
                        (transitive-Returns object parts.attribute parts.match_value all_objects)
                        λ matched _. returned tt)
                    λ _.
                      Returns-if (is_empty parts.matching_rule) _ _ (λ _. returned tt)
                        λ _. returned tt

  extensible_matches-Settles :
      (filter : LdapNode) → Settles (extensible_matches input object all_objects filter)
  unfolding extensible_matches
  extensible_matches-Settles filter =
      Returns-option _ _ _
        (read_fields-Settles add_part input (filter.content_length + 1) filter.content_offset _ _
          (omega arith))
        (returned tt) rule_matches-Settles

  filter_matches-Settles :
      (depth : ℕ) (filter : LdapNode)
      → Within input filter
      → filter.content_length < depth
      → Settles (filter_matches input object all_objects depth filter)
  unfolding filter_matches
  filter_matches-Settles zero filter h k = elim k [ ]
  filter_matches-Settles (suc depth) filter h k =
      let inner : (node : LdapNode)
          → Within input node
          → node.content_length < filter.content_length
          → Settles (filter_matches input object all_objects depth node) =
        λ node w small. filter_matches-Settles depth node w (omega (arith, small, k)) in
      let rounds : ℕ = filter.content_length + 1 in
      Returns-if (filter.tag == 0xa0) _ _
        (λ _.
          all_match-Settles input _ filter.content_length inner rounds filter.content_offset _
            (omega arith) (omega arith))
        λ _.
          Returns-if (filter.tag == 0xa1) _ _
            (λ _.
              any_matches-Settles input _ filter.content_length inner rounds filter.content_offset _
                (omega arith) (omega arith))
            λ _.
              Returns-if (filter.tag == 0xa2) _ _
                (λ _.
                  none_matches-Settles input _ filter.content_length inner filter.content_offset _
                    (omega arith))
                λ _.
                  Returns-if (filter.tag == 0x87) _ _
                    (λ _. Returns-bind _ _ (text-Settles input filter h) λ name _. returned tt)
                    λ _.
                      Returns-if (filter.tag == 0xa3) _ _ (λ _. equality_matches-Settles filter)
                        λ _.
                          Returns-if (filter.tag == 0xa4) _ _
                            (λ _. substring_matches-Settles filter)
                            λ _.
                              Returns-if (filter.tag == 0xa9) _ _
                                (λ _. extensible_matches-Settles filter) λ _. returned tt

-- For a filter that lies inside the message, whatever its bytes are, the evaluation on an object
-- returns true or false: it reads inside the message only, its loops end, and so does its recursion
-- into nested filters and along the groups of the matching rule in chain.
pub filter_matches_object-Returns :
    (input : List ℕ) (filter : LdapNode) (object : LdapObject)
    (all_objects : Option (List LdapObject))
    → filter.content_offset + filter.content_length ≤ length input
    → (matched : Bool) × (filter_matches_object input filter object all_objects ≡ ok matched)
unfolding filter_matches_object
filter_matches_object-Returns input filter object all_objects h = Returns-ok _ (
    filter_matches-Settles input object all_objects (filter.content_length + 1) filter h
      (omega arith))
